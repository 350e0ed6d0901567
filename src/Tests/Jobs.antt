-- ===== src/Tests/Jobs.antt =====
-- A scheduler of two jobs, through a run that panics, a closure that panics, and a shutdown.
use rust_v.Prelude.{◌≡◌, refl, inl, false, some, List, [], ◌∷◌, get_elem?, All}
use rust_v.Jobs.Scheduler.{
  panic, ok, future, panics, Job, every, begun, run_once, broken_off, tick, finish, stop_seen, here,
  there, IsEnded, Scheduler, new, called_off, awaited, SchedulerStep, works, registers, shuts_down,
  awaits, Leads, same, then_step,
}
use rust_v.Jobs.Scheduler.Survival.{IsKept, schedule_survives}
use rust_v.Jobs.Scheduler.Calls.{call_panics}
use rust_v.Jobs.Scheduler.Shutdown.{returned_rests}

-- The first has had a run that panicked, and waits; the second is in a run.
abbrev survived : Job
survived = run_once panic (begun future every)

abbrev busy : Scheduler
busy = record new { jobs = survived ∷ begun future every ∷ [] }

busy-Leads : Leads new busy
busy-Leads =
    then_step
      (then_step
        (then_step (then_step (then_step same (registers refl)) (registers refl))
          (works (here (tick future refl refl refl))))
        (works (here (finish panic refl refl))))
      (works (there (here (tick future refl refl refl))))

schedule_survives_example : All (IsKept false) (survived ∷ begun future every ∷ [])
schedule_survives_example = schedule_survives busy-Leads

call_panics_example :
    (s' : Scheduler) × SchedulerStep busy s'
    × ((t : Scheduler) → Leads s' t → get_elem? t.jobs 0 ≡ some (begun panics survived))
call_panics_example = call_panics busy 0 survived refl refl refl

abbrev draining : Scheduler
draining = called_off busy

draining-Leads : Leads new draining
draining-Leads = then_step busy-Leads (shuts_down refl)

abbrev ended_jobs : List Job
ended_jobs = broken_off survived ∷ broken_off (run_once ok (begun future every)) ∷ []

abbrev done : Scheduler
done = awaited 1 (awaited 0 (record draining { jobs = ended_jobs }))

done-Leads : Leads new done
done-Leads =
    then_step
      (then_step
        (then_step
          (then_step (then_step draining-Leads (works (here (stop_seen refl refl refl))))
            (works (there (here (finish ok refl refl)))))
          (works (there (here (stop_seen refl refl refl)))))
        (awaits 0 (broken_off survived) refl refl (inl refl)))
      (awaits 1 (broken_off (run_once ok (begun future every))) refl refl (inl refl))

returned_rests_example : All IsEnded ended_jobs × ((t : Scheduler) → SchedulerStep done t → ⊥)
returned_rests_example = returned_rests done done-Leads refl
