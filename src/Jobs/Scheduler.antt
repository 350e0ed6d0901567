-- ===== src/Jobs/Scheduler.antt =====
-- crates/rv2-jobs/src/lib.rs: the tasks of the scheduler, as steps that interleave in any order, and
-- its shutdown.
pub mod Shutdown
pub mod Draining
pub mod Survival
pub mod Calls
use rust_v.Prelude.{
  ℕ, suc, ◌≡◌, Bool, true, false, ◌⊎◌, Option, some, List, [], ◌∷◌, ◌++◌, get_elem?, length, ◌==◌,
  if◌then◌else◌,
}

-- Where the task of a job is: at the `select!`, in `run_once` at the join, behind the loop, or ended by
-- a panic of its own.
pub data Phase : Type 0 where
  waiting running stopped unwound : Phase

-- What a run on its own task ends in; the label of the counter.
pub data Outcome : Type 0 where
  ok error panic : Outcome

-- What `job()` does, which makes the future of a run: it is called on the task of the loop, before
-- anything is spawned.
pub data Called : Type 0 where
  future panics : Called

-- `started` counts the calls of the closure.
pub record Job : Type 0 where
  pub phase : Phase
  pub started : ℕ
  pub ok_runs : ℕ
  pub error_runs : ℕ
  pub panic_runs : ℕ

-- The counter `job_runs_total`.
abbrev pub counted : Outcome → Job → Job
counted ok job = record job { ok_runs = suc job.ok_runs }
counted error job = record job { error_runs = suc job.error_runs }
counted panic job = record job { panic_runs = suc job.panic_runs }

-- `run_once`, up to the join: a panic of the closure itself unwinds the task of the loop.
abbrev pub begun : Called → Job → Job
begun future job = record job { phase = running; started = suc job.started }
begun panics job = record job { phase = unwound; started = suc job.started }

-- `run_once`, behind the join: whatever the spawned task ends in is counted, and the loop goes on.
abbrev pub run_once : Outcome → Job → Job
run_once outcome job = counted outcome (record job { phase = waiting })

abbrev pub broken_off : Job → Job
broken_off job = record job { phase = stopped }

-- A step of one job. The `select!` is biased: with the stop signal there, no tick is taken. A sender
-- that is gone ends the wait for the signal too, and counts as one. A run may take any time, also
-- for ever: nothing makes the step `finish` happen.
pub data JobStep : Bool → Job → Job → Type 0 where
  tick :
      {stop : Bool} {job job' : Job} (called : Called)
      → stop ≡ false
      → job.phase ≡ waiting
      → job' ≡ begun called job
      → JobStep stop job job'
  finish :
      {stop : Bool} {job job' : Job} (outcome : Outcome)
      → job.phase ≡ running
      → job' ≡ run_once outcome job
      → JobStep stop job job'
  stop_seen :
      {stop : Bool} {job job' : Job}
      → stop ≡ true
      → job.phase ≡ waiting
      → job' ≡ broken_off job
      → JobStep stop job job'

-- One of the jobs makes a step.
pub data JobsStep : Bool → List Job → List Job → Type 0 where
  here :
      {stop : Bool} {job job' : Job} {jobs : List Job}
      → JobStep stop job job'
      → JobsStep stop (job ∷ jobs) (job' ∷ jobs)
  there :
      {stop : Bool} {job : Job} {jobs jobs' : List Job}
      → JobsStep stop jobs jobs'
      → JobsStep stop (job ∷ jobs) (job ∷ jobs')

-- A job that `every` has just registered.
abbrev pub every : Job
every = record { phase = waiting; started = 0; ok_runs = 0; error_runs = 0; panic_runs = 0 }

-- The task of the job has ended, which is what awaiting its handle waits for.
abbrev pub IsEnded : Job → Type 0
IsEnded job = (job.phase ≡ stopped) ⊎ (job.phase ≡ unwound)

-- How far `shutdown` is: the number of handles that it has awaited.
pub data Progress : Type 0 where
  not_called dropped returned : Progress
  awaiting : (handles : ℕ) → Progress

-- The stop signal, the tasks in the order of their handles, and the shutdown.
pub record Scheduler : Type 0 where
  pub stop : Bool
  pub jobs : List Job
  pub shutdown : Progress

-- `Scheduler::new`
abbrev pub new : Scheduler
new = record { stop = false; jobs = []; shutdown = not_called }

-- `shutdown`, up to its loop: with no handle it returns at once, before the signal.
abbrev pub signalled : Bool → List Job → Bool
signalled stop [] = stop
signalled stop (job ∷ jobs) = true

abbrev pub first_handle : List Job → Progress
first_handle [] = returned
first_handle (job ∷ jobs) = awaiting 0

abbrev pub called_off : Scheduler → Scheduler
called_off s = record s { stop = signalled s.stop s.jobs; shutdown = first_handle s.jobs }

-- A round of the loop of `shutdown`, behind its `await`.
abbrev pub awaited : ℕ → Scheduler → Scheduler
awaited n s = record s { shutdown = if suc n == length s.jobs then returned else awaiting (suc n) }

-- `every` borrows the scheduler and `shutdown` takes it, so that neither is called behind the other; a
-- scheduler that is dropped takes the sender of the signal with it.
pub data SchedulerStep : Scheduler → Scheduler → Type 0 where
  works :
      {s : Scheduler} {jobs : List Job}
      → JobsStep s.stop s.jobs jobs
      → SchedulerStep s (record s { jobs = jobs })
  registers :
      {s : Scheduler}
      → s.shutdown ≡ not_called
      → SchedulerStep s (record s { jobs = s.jobs ++ every ∷ [] })
  shuts_down : {s : Scheduler} → s.shutdown ≡ not_called → SchedulerStep s (called_off s)
  drops :
      {s : Scheduler}
      → s.shutdown ≡ not_called
      → SchedulerStep s (record s { stop = true; shutdown = dropped })
  awaits :
      {s : Scheduler} (n : ℕ) (job : Job)
      → s.shutdown ≡ awaiting n
      → get_elem? s.jobs n ≡ some job
      → IsEnded job
      → SchedulerStep s (awaited n s)

-- What steps lead to.
pub data Leads (s : Scheduler) : Scheduler → Type 0 where
  same : Leads s s
  then_step : {t u : Scheduler} → Leads s t → SchedulerStep t u → Leads s u
