-- ===== src/Jobs/Scheduler/Shutdown.antt =====
-- crates/rv2-jobs/src/lib.rs: what a shutdown waits for, and what holds when it returns.
use rust_v.Prelude.{
  ℕ, zero, suc, ◌<◌, ◌≡◌, refl, sym, ap, Bool, true, Bool-cases, some, List, [], ◌∷◌, get_elem?,
  length, ◌==◌, ==_iff, All, inl, inr, arith,
}
use rust_v.Jobs.Scheduler.{
  Job, JobStep, tick, finish, stop_seen, JobsStep, here, there, IsEnded, Progress, not_called,
  dropped, returned, awaiting, Scheduler, new, signalled, first_handle, awaited, SchedulerStep,
  works, registers, shuts_down, drops, awaits, Leads, same, then_step,
}

-- A task that has ended makes no step.
ended_rests : (stop : Bool) (job job' : Job) → IsEnded job → JobStep stop job job' → ⊥
ended_rests stop job job' (inl u) (tick called h p e) = cc
ended_rests stop job job' (inl u) (finish outcome p e) = cc
ended_rests stop job job' (inl u) (stop_seen h p e) = cc
ended_rests stop job job' (inr u) (tick called h p e) = cc
ended_rests stop job job' (inr u) (finish outcome p e) = cc
ended_rests stop job job' (inr u) (stop_seen h p e) = cc

-- The first tasks, as many as the number, have ended.
FirstEnded : ℕ → List Job → Type 0
FirstEnded zero jobs = Unit
FirstEnded (suc n) [] = Unit
FirstEnded (suc n) (job ∷ jobs) = IsEnded job × FirstEnded n jobs

JobsStep-FirstEnded :
    (stop : Bool) (n : ℕ) (jobs jobs' : List Job)
    → JobsStep stop jobs jobs'
    → FirstEnded n jobs
    → FirstEnded n jobs'
unfolding FirstEnded
JobsStep-FirstEnded stop zero jobs jobs' s h = tt
JobsStep-FirstEnded stop (suc n) [] jobs' s h = elim s [ ]
JobsStep-FirstEnded stop (suc n) (job ∷ jobs) [] s h = elim s [ ]
JobsStep-FirstEnded stop (suc n) (job ∷ jobs) (job' ∷ jobs') (here s) (h, hs) =
    absurd (ended_rests stop job job' h s)
JobsStep-FirstEnded stop (suc n) (job ∷ jobs) (job' ∷ jobs') (there s) (h, hs) =
    (h, JobsStep-FirstEnded stop n jobs jobs' s hs)

pub JobsStep-length :
    (stop : Bool) (jobs jobs' : List Job) → JobsStep stop jobs jobs' → length jobs' ≡ length jobs
JobsStep-length stop [] jobs' s = elim s [ ]
JobsStep-length stop (job ∷ jobs) [] s = elim s [ ]
JobsStep-length stop (job ∷ jobs) (job' ∷ jobs') (here s) = refl
JobsStep-length stop (job ∷ jobs) (job' ∷ jobs') (there s) =
    ap (λ n. suc n) (JobsStep-length stop jobs jobs' s)

all_rest : (stop : Bool) (jobs jobs' : List Job) → All IsEnded jobs → JobsStep stop jobs jobs' → ⊥
all_rest stop [] jobs' h s = elim s [ ]
all_rest stop (job ∷ jobs) [] h s = elim s [ ]
all_rest stop (job ∷ jobs) (job' ∷ jobs') (h, hs) (here s) = ended_rests stop job job' h s
all_rest stop (job ∷ jobs) (job' ∷ jobs') (h, hs) (there s) = all_rest stop jobs jobs' hs s

-- One more.
FirstEnded-suc :
    (n : ℕ) (jobs : List Job) (job : Job)
    → FirstEnded n jobs
    → get_elem? jobs n ≡ some job
    → IsEnded job
    → FirstEnded (suc n) jobs
unfolding FirstEnded
FirstEnded-suc n [] job h e done = tt
FirstEnded-suc zero (x ∷ jobs) job h e done = let eq : x ≡ job = ground arith in (rw eq done, tt)
FirstEnded-suc (suc n) (x ∷ jobs) job (h, hs) e done = (h, FirstEnded-suc n jobs job hs e done)

FirstEnded-All : (jobs : List Job) → FirstEnded (length jobs) jobs → All IsEnded jobs
unfolding FirstEnded
FirstEnded-All [] h = tt
FirstEnded-All (job ∷ jobs) (h, hs) = (h, FirstEnded-All jobs hs)

-- What a shutdown has waited for.
Waited : Bool → List Job → Progress → Type 0
Waited stop jobs not_called = Unit
Waited stop jobs dropped = Unit
Waited stop jobs returned = All IsEnded jobs
Waited stop jobs (awaiting n) = (stop ≡ true) × (n < length jobs) × FirstEnded n jobs

works-Waited :
    (stop : Bool) (jobs jobs' : List Job) (p : Progress)
    → JobsStep stop jobs jobs'
    → Waited stop jobs p
    → Waited stop jobs' p
unfolding Waited
works-Waited stop jobs jobs' not_called s w = tt
works-Waited stop jobs jobs' dropped s w = tt
works-Waited stop jobs jobs' returned s w = absurd (all_rest stop jobs jobs' w s)
works-Waited stop jobs jobs' (awaiting n) s (h, lt, first) =
    (h, rw (JobsStep-length stop jobs jobs' s) lt, JobsStep-FirstEnded stop n jobs jobs' s first)

first_handle-Waited :
    (stop : Bool) (jobs : List Job) → Waited (signalled stop jobs) jobs (first_handle jobs)
unfolding Waited FirstEnded
first_handle-Waited stop [] = tt
first_handle-Waited stop (job ∷ jobs) = (refl, omega arith, tt)

awaited-Waited :
    (s : Scheduler) (n : ℕ) (job : Job)
    → Waited s.stop s.jobs (awaiting n)
    → get_elem? s.jobs n ≡ some job
    → IsEnded job
    → Waited s.stop s.jobs (awaited n s).shutdown
unfolding Waited
awaited-Waited s n job (h, lt, first) e done =
    let more = FirstEnded-suc n s.jobs job first e done in
    elim (Bool-cases (suc n == length s.jobs)) [
      | inl k ↦
          let all : suc n ≡ length s.jobs = (==_iff _ _).0 k in
          rw k (FirstEnded-All s.jobs (rw (sym all) more))
      | inr k ↦ rw k (h, ground arith, more)
    ]

HasWaited : Scheduler → Type 0
HasWaited s = Waited s.stop s.jobs s.shutdown

SchedulerStep-HasWaited : {s t : Scheduler} → SchedulerStep s t → HasWaited s → HasWaited t
unfolding HasWaited
SchedulerStep-HasWaited {s = s} (works {jobs = jobs} step) w =
    works-Waited s.stop s.jobs jobs s.shutdown step w
SchedulerStep-HasWaited {s = s} (registers h) w = rw h (unfold Waited in tt)
SchedulerStep-HasWaited {s = s} (shuts_down h) w = first_handle-Waited s.stop s.jobs
SchedulerStep-HasWaited {s = s} (drops h) w = unfold Waited in tt
SchedulerStep-HasWaited {s = s} (awaits n job h e done) w =
    awaited-Waited s n job (rw h at w) e done

Leads-HasWaited : {s : Scheduler} → Leads new s → HasWaited s
unfolding HasWaited
Leads-HasWaited same = unfold Waited in tt
Leads-HasWaited (then_step before step) = SchedulerStep-HasWaited step (Leads-HasWaited before)

pub awaiting_told :
    (s : Scheduler) (n : ℕ)
    → Leads new s
    → s.shutdown ≡ awaiting n
    → (s.stop ≡ true) × (n < length s.jobs)
unfolding HasWaited Waited
awaiting_told s n leads at =
    let waited : Waited s.stop s.jobs s.shutdown = Leads-HasWaited leads in
    let (told, lt, first) : Waited s.stop s.jobs (awaiting n) = rw at at waited in (told, lt)

-- When `shutdown` has returned, the task of every job has ended, and nothing happens any more: no job is
-- called and no run goes on.
pub returned_rests :
    (s : Scheduler)
    → Leads new s
    → s.shutdown ≡ returned
    → All IsEnded s.jobs × ((t : Scheduler) → SchedulerStep s t → ⊥)
unfolding HasWaited Waited
returned_rests s leads h = (all, λ t step. rests step)
  where
    waited : Waited s.stop s.jobs s.shutdown
    waited = Leads-HasWaited {s = s} leads

    all : All IsEnded s.jobs
    all = rw h at waited

    rests : {t : Scheduler} → SchedulerStep s t → ⊥
    rests (works {jobs = jobs} step) = all_rest s.stop s.jobs jobs all step
    rests (registers k) = cc
    rests (shuts_down k) = cc
    rests (drops k) = cc
    rests (awaits n job k e done) = cc
