-- ===== src/Jobs/Scheduler/Survival.antt =====
-- crates/rv2-jobs/src/lib.rs: what ends the schedule of a job and what does not, and that no run is lost.
use rust_v.Prelude.{
  ℕ, suc, ◌+◌, ◌≡◌, refl, Bool, true, List, [], ◌∷◌, ◌++◌, All, ◌⊎◌, inl, inr, arith,
}
use rust_v.Jobs.Scheduler.{
  Phase, waiting, running, stopped, unwound, Outcome, ok, error, panic, Called, future, panics, Job,
  begun, run_once, every, JobStep, tick, finish, stop_seen, JobsStep, here, there, Scheduler, new,
  signalled, SchedulerStep, works, registers, shuts_down, drops, awaits, Leads, same, then_step,
}

-- The calls that are in no counter: one in flight, or one that took the loop with it.
abbrev pub uncounted : Phase → ℕ
uncounted waiting = 0
uncounted running = 1
uncounted stopped = 0
uncounted unwound = 1

abbrev pub ended : Job → ℕ
ended job = job.ok_runs + job.error_runs + job.panic_runs

-- Every call of the closure is counted once, in flight, or has panicked itself.
unfoldable pub IsCounted : Job → Type 0
IsCounted job = job.started ≡ ended job + uncounted job.phase

-- Before a stop, the loop of the job goes on, unless a call of its closure panicked.
unfoldable pub IsScheduled : Bool → Job → Type 0
IsScheduled stop job =
    (stop ≡ true) ⊎ ((job.phase ≡ waiting) ⊎ ((job.phase ≡ running) ⊎ (job.phase ≡ unwound)))

-- What holds of a job through every step.
pub record IsKept (stop : Bool) (job : Job) : Type 0 where
  pub counted : IsCounted job
  pub scheduled : IsScheduled stop job

run_once-lem :
    (outcome : Outcome) (job : Job)
    → ((run_once outcome job).phase ≡ waiting)
      × ((run_once outcome job).started ≡ job.started)
      × (ended (run_once outcome job) ≡ suc (ended job))
run_once-lem ok job = (refl, refl, omega arith)
run_once-lem error job = (refl, refl, omega arith)
run_once-lem panic job = (refl, refl, omega arith)

begun-IsKept :
    (stop : Bool) (called : Called) (job : Job)
    → job.phase ≡ waiting
    → IsCounted job
    → IsKept stop (begun called job)
unfolding IsCounted IsScheduled
begun-IsKept stop future job p h =
    let e = rw p at h in record { counted = omega arith; scheduled = inr (inr (inl refl)) }
begun-IsKept stop panics job p h =
    let e = rw p at h in record { counted = omega arith; scheduled = inr (inr (inr refl)) }

counted_ended :
    (job : Job) → job.phase ≡ running → IsCounted job → job.started ≡ suc (ended job) + 0
unfolding IsCounted
counted_ended job p h = let e = rw p at h in omega arith

counted_stopped : (job : Job) → job.phase ≡ waiting → IsCounted job → job.started ≡ ended job + 0
unfolding IsCounted
counted_stopped job p h = rw p at h

JobStep-IsKept :
    (stop : Bool) (job job' : Job) → JobStep stop job job' → IsKept stop job → IsKept stop job'
unfolding IsCounted IsScheduled
JobStep-IsKept stop job job' (tick called h p e) k = rw e (begun-IsKept stop called job p k.counted)
JobStep-IsKept stop job job' (finish outcome p e) k =
    let (phase, started, more) = run_once-lem outcome job in
    record {
      counted = rw (e, phase, started, more) (counted_ended job p k.counted);
      scheduled = inr (inl (rw e phase));
    }
JobStep-IsKept stop job job' (stop_seen h p e) k = record {
  counted = rw e (counted_stopped job p k.counted);
  scheduled = inl h;
}

JobsStep-IsKept :
    (stop : Bool) (jobs jobs' : List Job)
    → JobsStep stop jobs jobs'
    → All (IsKept stop) jobs
    → All (IsKept stop) jobs'
JobsStep-IsKept stop [] jobs' s k = elim s [ ]
JobsStep-IsKept stop (job ∷ jobs) [] s k = elim s [ ]
JobsStep-IsKept stop (job ∷ jobs) (job' ∷ jobs') (here s) (k, ks) =
    (JobStep-IsKept stop job job' s k, ks)
JobsStep-IsKept stop (job ∷ jobs) (job' ∷ jobs') (there s) (k, ks) =
    (k, JobsStep-IsKept stop jobs jobs' s ks)

every-IsKept : (stop : Bool) → IsKept stop every
every-IsKept stop = record {
  counted = unfold IsCounted in refl;
  scheduled = unfold IsScheduled in inr (inl refl);
}

registered-IsKept :
    (stop : Bool) (jobs : List Job)
    → All (IsKept stop) jobs
    → All (IsKept stop) (jobs ++ every ∷ [])
registered-IsKept stop [] k = (every-IsKept stop, tt)
registered-IsKept stop (job ∷ jobs) (k, ks) = (k, registered-IsKept stop jobs ks)

-- The signal takes nothing back.
stopped-IsKept : (stop : Bool) (jobs : List Job) → All (IsKept stop) jobs → All (IsKept true) jobs
unfolding IsScheduled
stopped-IsKept stop [] k = tt
stopped-IsKept stop (job ∷ jobs) (k, ks) =
    (record { counted = k.counted; scheduled = inl refl }, stopped-IsKept stop jobs ks)

AreKept : Scheduler → Type 0
AreKept s = All (IsKept s.stop) s.jobs

signalled-IsKept :
    (stop : Bool) (jobs : List Job)
    → All (IsKept stop) jobs
    → All (IsKept (signalled stop jobs)) jobs
signalled-IsKept stop [] k = tt
signalled-IsKept stop (job ∷ jobs) k = stopped-IsKept stop (job ∷ jobs) k

SchedulerStep-AreKept : {s t : Scheduler} → SchedulerStep s t → AreKept s → AreKept t
unfolding AreKept
SchedulerStep-AreKept {s = s} (works {jobs = jobs} step) k =
    JobsStep-IsKept s.stop s.jobs jobs step k
SchedulerStep-AreKept {s = s} (registers h) k = registered-IsKept s.stop s.jobs k
SchedulerStep-AreKept {s = s} (shuts_down h) k = signalled-IsKept s.stop s.jobs k
SchedulerStep-AreKept {s = s} (drops h) k = stopped-IsKept s.stop s.jobs k
SchedulerStep-AreKept (awaits n job h e done) k = k

-- However the steps of a scheduler interleave, from its making on: each call of a job's closure has been
-- counted once, in the outcome of its run, or its run is in flight, or the call itself panicked; and
-- while no stop is signalled, the loop of each job goes on, unless such a call ended it. So neither an
-- error nor a panic of a run ends a schedule.
pub schedule_survives : {s : Scheduler} → Leads new s → All (IsKept s.stop) s.jobs
unfolding AreKept
schedule_survives same = tt
schedule_survives (then_step before step) = SchedulerStep-AreKept step (schedule_survives before)
