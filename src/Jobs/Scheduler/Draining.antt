-- ===== src/Jobs/Scheduler/Draining.antt =====
-- crates/rv2-jobs/src/lib.rs: a shutdown that has not returned yet.
use rust_v.Prelude.{ℕ, ◌+◌, ◌-◌, ◌≡◌, some, List, [], ◌∷◌, get_elem?, length}
use rust_v.Jobs.Scheduler.{
  Phase, waiting, running, stopped, unwound, Job, broken_off, Progress, not_called, dropped,
  returned, awaiting, Scheduler, awaited, SchedulerStep,
}

-- How many steps a job can still make once it is told to stop.
abbrev pub steps_left : Phase → ℕ
steps_left waiting = 1
steps_left running = 2
steps_left stopped = 0
steps_left unwound = 0

abbrev pub all_left : List Job → ℕ
all_left [] = 0
all_left (job ∷ jobs) = steps_left job.phase + all_left jobs

abbrev pub handles_left : List Job → Progress → ℕ
handles_left jobs not_called = 0
handles_left jobs dropped = 0
handles_left jobs returned = 0
handles_left jobs (awaiting n) = length jobs - n

-- The steps of the jobs and of the shutdown that are still to come.
abbrev pub left : Scheduler → ℕ
left s = all_left s.jobs + handles_left s.jobs s.shutdown

-- How often the closures have been called.
abbrev pub calls : List Job → ℕ
calls [] = 0
calls (job ∷ jobs) = job.started + calls jobs

-- What an await of the handle of a job waits for: the end of a run, which the scheduler does not
-- control; or a step that can be made, in which the job sees the signal or the await is over.
pub data Pending (s : Scheduler) (n : ℕ) (job : Job) : Type 0 where
  in_run : job.phase ≡ running → Pending s n job
  to_see :
      (jobs : List Job)
      → SchedulerStep s (record s { jobs = jobs })
      → get_elem? jobs n ≡ some (broken_off job)
      → Pending s n job
  done_waiting : SchedulerStep s (awaited n s) → Pending s n job
