-- ===== src/Api/Start/Stopped.antt =====
-- What `main` stops and flushes before it returns.
use mathlib.Core.List.Memᴰ
use mathlib.Core.List.{Memᴰ}
use rust_v.Prelude.{
  String, ◌≡◌, refl, ap, inl, inr, Bool, true, false, List, [], ◌∷◌, Result, ok, err, arith,
}
use rust_v.Api.Start.{
  Stage, logging_on, metrics_on, configured, state_built, jobs_started, bound, served, jobs_stopped,
  analytics_flushed, logging_off, Boot, Staged, stage, main,
}

-- The last stages of a run, in their order.
abbrev pub stops : List Stage
stops = jobs_stopped ∷ analytics_flushed ∷ logging_off ∷ []

-- The run ends with the three stages.
pub data EndsStopped : List Stage → Type 0 where
  at_once : EndsStopped stops
  later : (name : Stage) (rest : List Stage) → EndsStopped rest → EndsStopped (name ∷ rest)

-- A run that succeeds ends with the three stages, and one that fails has none of them.
abbrev pub Closes : Staged → Type 0
Closes (trace, ok done) = EndsStopped trace
Closes (trace, err e) = (Memᴰ jobs_stopped trace → ⊥) × (Memᴰ analytics_flushed trace → ⊥)

is_stop : Stage → Bool
is_stop jobs_stopped = true
is_stop analytics_flushed = true
is_stop _ = false

not_first :
    (name other : Stage) (rest : List Stage)
    → is_stop name ≡ false
    → is_stop other ≡ true
    → (Memᴰ other rest → ⊥)
    → Memᴰ other (name ∷ rest)
    → ⊥
not_first name other rest h k none_later m = elim (Memᴰ.cases_cons m) [
  | inl e ↦ absurd (ground (arith, ap is_stop e))
  | inr n ↦ none_later n
]

stage-Closes :
    (r : Result String (Unit {0})) (name : Stage) (t : Staged)
    → is_stop name ≡ false
    → Closes t
    → Closes (stage r name t)
unfolding stage
stage-Closes (err e) name t h c = (λ m. Memᴰ.not-nil m, λ m. Memᴰ.not-nil m)
stage-Closes (ok done) name (rest, ok done') h c = later name rest c
stage-Closes (ok done) name (rest, err e) h c = (
  not_first name jobs_stopped rest h (unfold is_stop in refl) c.0,
  not_first name analytics_flushed rest h (unfold is_stop in refl) c.1,
)

-- Where `main` succeeds it has stopped the jobs, flushed the analytics and closed the logging, in
-- this order and after everything else. Where any of its stages fails, an error of the server
-- itself included, it neither stops the jobs nor flushes the analytics.
main-Closes : (boot : Boot) → Closes (main boot)
unfolding main is_stop
main-Closes boot = stage-Closes (ok tt) logging_on _ refl (
    stage-Closes boot.metrics metrics_on _ refl (
      stage-Closes boot.config configured _ refl (
        stage-Closes boot.state state_built _ refl (
          stage-Closes (ok tt) jobs_started _ refl (
            stage-Closes boot.bind bound _ refl
              (stage-Closes boot.serve served (stops, ok tt) refl at_once))))))
