-- ===== src/Gates/Steps/Exit.antt =====
-- When `main` exits with success.
use rust_v.Prelude.{String, ◌≡◌, ap, ◌↔◌, Option, some, ok, err, Result, arith}
use rust_v.Gates.Machine.{Failure, Machine}
use rust_v.Gates.Steps.{Discovery, ExitCode, success, exit_of, task, main, ci}
use rust_v.Gates.Steps.Passed.{IsPassed, ci-IsPassed}

module _ {W : Type 0} (m : Machine W) (os arch : String) (found : Option String)
    (discovery : Discovery W) where
  exit_of-success :
      (r : W × Result Failure (Unit {0})) (w' : W)
      → (exit_of m r ≡ (w', success)) ↔ (r ≡ (w', ok tt))
  exit_of-success (w, ok tt) w' = (
    λ h. ap (λ (p : W × ExitCode). (p.0, ok tt)) h,
    λ h. ap (λ (p : W × Result Failure (Unit {0})). (p.0, success)) h,
  )
  exit_of-success (w, err e) w' = (λ h. absurd (ground arith), λ h. absurd (ground arith))

  -- `cargo xtask ci` exits with success exactly if, in this order, the formatter, the linter, the build
  -- and the tests succeed; each stylesheet compiles to the bytes of the committed one; each line that
  -- the scan for the predecessor prints carries the marker or is one of the licensed; each line that
  -- the scan for hues prints carries its marker; every Rust file of an app can be read and has no raw
  -- element unexcused; and what `cargo tree` prints for each app names no crate of the server. What
  -- the scans and `cargo tree` print is all that is looked at: whether they succeed is not.
  pub main-IsPassed :
      (w w' : W)
      → (main m os arch found discovery (some "ci") w ≡ (w', success))
        ↔ IsPassed m os arch found w w'
  unfolding main task
  main-IsPassed w w' =
      let exit = exit_of-success (ci m os arch found w) w' in
      let gates = ci-IsPassed m os arch found w w' in
      (λ h. gates.0 (exit.0 h), λ p. exit.1 (gates.1 p))
