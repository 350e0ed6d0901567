-- ===== src/Jobs/Scheduler/Calls.antt =====
-- crates/rv2-jobs/src/lib.rs: a closure that panics before it makes a future.
use rust_v.Prelude.{
  ℕ, zero, suc, ◌≡◌, refl, ap, ◌∙◌, Bool, false, some, List, [], ◌∷◌, ◌++◌, get_elem?, arith,
}
use rust_v.Jobs.Scheduler.{
  waiting, unwound, panics, Job, begun, every, JobStep, tick, finish, stop_seen, JobsStep, here,
  there, Scheduler, SchedulerStep, works, registers, shuts_down, drops, awaits, Leads, same,
  then_step,
}

-- A task that has been unwound makes no step.
unwound_rests : (stop : Bool) (job job' : Job) → job.phase ≡ unwound → JobStep stop job job' → ⊥
unwound_rests stop job job' u (tick called h p e) = cc
unwound_rests stop job job' u (finish outcome p e) = cc
unwound_rests stop job job' u (stop_seen h p e) = cc

-- Whatever the other jobs do, it stays as it is.
JobsStep-at :
    (stop : Bool) (jobs jobs' : List Job) (n : ℕ) (job : Job)
    → JobsStep stop jobs jobs'
    → job.phase ≡ unwound
    → get_elem? jobs n ≡ some job
    → get_elem? jobs' n ≡ some job
JobsStep-at stop [] jobs' n job s u e = elim s [ ]
JobsStep-at stop (x ∷ jobs) [] n job s u e = elim s [ ]
JobsStep-at stop (x ∷ jobs) (y ∷ jobs') zero job (here s) u e =
    let eq : x ≡ job = ground arith in
    absurd (unwound_rests stop x y (ap (λ (j : Job). j.phase) eq ∙ u) s)
JobsStep-at stop (x ∷ jobs) (y ∷ jobs') (suc n) job (here s) u e = e
JobsStep-at stop (x ∷ jobs) (y ∷ jobs') zero job (there s) u e = e
JobsStep-at stop (x ∷ jobs) (y ∷ jobs') (suc n) job (there s) u e =
    JobsStep-at stop jobs jobs' n job s u e

registered-at :
    (jobs : List Job) (n : ℕ) (job : Job)
    → get_elem? jobs n ≡ some job
    → get_elem? (jobs ++ every ∷ []) n ≡ some job
registered-at [] n job e = absurd (ground arith)
registered-at (x ∷ jobs) zero job e = e
registered-at (x ∷ jobs) (suc n) job e = registered-at jobs n job e

SchedulerStep-at :
    {s t : Scheduler} (n : ℕ) (job : Job)
    → SchedulerStep s t
    → job.phase ≡ unwound
    → get_elem? s.jobs n ≡ some job
    → get_elem? t.jobs n ≡ some job
SchedulerStep-at {s = s} n job (works {jobs = jobs} step) u e =
    JobsStep-at s.stop s.jobs jobs n job step u e
SchedulerStep-at {s = s} n job (registers h) u e = registered-at s.jobs n job e
SchedulerStep-at n job (shuts_down h) u e = e
SchedulerStep-at n job (drops h) u e = e
SchedulerStep-at n job (awaits m other h a done) u e = e

Leads-at :
    {s t : Scheduler} (n : ℕ) (job : Job)
    → Leads s t
    → job.phase ≡ unwound
    → get_elem? s.jobs n ≡ some job
    → get_elem? t.jobs n ≡ some job
Leads-at n job same u e = e
Leads-at n job (then_step before step) u e =
    SchedulerStep-at n job step u (Leads-at n job before u e)

-- A job that waits may be ticked, and its closure may panic.
ticked :
    (jobs : List Job) (n : ℕ) (job : Job)
    → get_elem? jobs n ≡ some job
    → job.phase ≡ waiting
    → (jobs' : List Job) × JobsStep false jobs jobs' × (get_elem? jobs' n ≡ some (begun panics job))
ticked [] n job e w = absurd (ground arith)
ticked (x ∷ jobs) zero job e w =
    let eq : x ≡ job = ground arith in
    (
      begun panics x ∷ jobs,
      here (tick panics refl (ap (λ (j : Job). j.phase) eq ∙ w) refl),
      ap (λ (j : Job). some (begun panics j)) eq,
    )
ticked (x ∷ jobs) (suc n) job e w =
    let (jobs', step, at) = ticked jobs n job e w in (x ∷ jobs', there step, at)

-- While no stop is signalled, the closure of a job that waits for its tick may panic when it is called;
-- then, whatever happens, the job stays as that call left it: it is never called again, and the call
-- is counted in no outcome.
pub call_panics :
    (s : Scheduler) (n : ℕ) (job : Job)
    → s.stop ≡ false
    → get_elem? s.jobs n ≡ some job
    → job.phase ≡ waiting
    → (s' : Scheduler) × SchedulerStep s s'
      × ((t : Scheduler) → Leads s' t → get_elem? t.jobs n ≡ some (begun panics job))
call_panics s n job go e w =
    let (jobs', step, at) = ticked s.jobs n job e w in
    (
      record s { jobs = jobs' },
      works (rw go step),
      λ t leads. Leads-at n (begun panics job) leads refl at,
    )
