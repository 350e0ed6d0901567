-- ===== src/Gates/Steps.antt =====
-- tooling/xtask/src/main.rs: `ci`, `live`, `core` and `main`. What is printed is left out.
pub mod Passed
pub mod Exit
use Prim.Native.String
use rust_v.Prelude.{
  String, Bool, true, false, Option, none, some, List, [], ◌∷◌, Result, ok, err, if◌then◌else◌,
}
use rust_v.Prelude.Text.{str_eq}
use rust_v.Gates.Isa.Sources.{Entries, IsaFailure, check_sources}
use rust_v.Gates.Machine.{
  Failure, io, kit_bypassed, no_core, core_failed, Call, Output, Machine, Command, then_run, ◌>>=◌,
  pure, guard, fail, or_io,
}
use rust_v.Gates.Styles.{join, workspace_root, build}
use rust_v.Gates.Scans.{
  call, run, no_hardcoded_hues, no_predecessor, wasm_boundary, styles_are_current,
}

abbrev pub fmt_args : List String
fmt_args = "fmt" ∷ "--all" ∷ "--" ∷ "--check" ∷ []

abbrev pub clippy_args : List String
clippy_args =
    "clippy" ∷ "--workspace" ∷ "--all-targets" ∷ "--all-features" ∷ "--" ∷ "-D" ∷ "warnings" ∷ []

abbrev pub contract_args : List String
contract_args =
    "test" ∷ "-p" ∷ "rv2-allsource" ∷ "--test" ∷ "core_contract" ∷ "--" ∷ "--ignored"
    ∷ "--test-threads=1" ∷ []

abbrev pub slice_args : List String
slice_args =
    "test" ∷ "-p" ∷ "api" ∷ "--features" ∷ "allsource-auth" ∷ "--test" ∷ "vertical_slice" ∷ "--"
    ∷ "--ignored" ∷ "--nocapture" ∷ "--test-threads=1" ∷ []

abbrev pub health_call : String → Call
health_call url = call "curl" ("-sf" ∷ "-m" ∷ "3" ∷ String.◌++◌ url "/health" ∷ [])

abbrev pub or_text : String → Option String → String
or_text text none = text
or_text text (some value) = value

abbrev pub core_call : String → Call
core_call data_dir = record {
  program = "allsource-core";
  args = [];
  dir = none;
  vars =
      ("ALLSOURCE_HOST", "127.0.0.1")
      ∷ ("ALLSOURCE_PORT", "3900")
      ∷ ("ALLSOURCE_DATA_DIR", data_dir)
      ∷ ("ALLSOURCE_DEV_MODE", "true")
      ∷ [];
}

-- The commands of discovery.rs, whose rules have modules of their own.
pub record Discovery (W : Type 0) : Type 0 where
  pub stage : Command W (Unit {0})
  pub stage_app : Command W (Unit {0})
  pub notify_indexnow : Command W (Unit {0})

pub data ExitCode : Type 0 where
  success : ExitCode
  failure : ExitCode

module _ {W : Type 0} (m : Machine W) where
  abbrev pub verdict : {A : Type 0} → Result IsaFailure A → Command W (Unit {0})
  verdict (ok n) = pure tt
  verdict (err e) = fail (kit_bypassed e)

  -- `isa::check`, from the entries of the directory `apps`.
  unfoldable pub apps_speak_the_kit : Option String → Command W (Unit {0})
  unfolding check_sources
  apps_speak_the_kit found = do
    _ ← workspace_root found
    apps ← λ w. or_io (w, m.apps w)
    verdict (check_sources apps)

  unfoldable pub ci : String → String → Option String → Command W (Unit {0})
  unfolding run styles_are_current no_predecessor no_hardcoded_hues apps_speak_the_kit wasm_boundary
  ci os arch found = do
    _ ← run m "cargo" fmt_args
    _ ← run m "cargo" clippy_args
    _ ← run m "cargo" ("build" ∷ "--workspace" ∷ [])
    _ ← run m "cargo" ("test" ∷ "--workspace" ∷ [])
    _ ← styles_are_current m os arch found
    _ ← no_predecessor m
    _ ← no_hardcoded_hues m
    _ ← apps_speak_the_kit found
    wasm_boundary m

  -- The four variables that `live` sets for the tests.
  abbrev pub dev_vars : String → W → W
  dev_vars url w = m.set_var "JWT_SECRET" "dev-secret-key-that-is-at-least-32-characters-long" (
      m.set_var "ALLSOURCE_API_KEY" "dev"
        (m.set_var "ALLSOURCE_QUERY_URL" url (m.set_var "ALLSOURCE_CORE_URL" url w)))

  unfoldable pub live : Command W (Unit {0})
  unfolding run
  live = do
    url ← λ w. (w, ok (or_text "http://localhost:3900" (m.var w "ALLSOURCE_CORE_URL")))
    health ← λ w. or_io (m.output (health_call url) w)
    _ ← guard health.success (no_core url)
    _ ← λ w. (dev_vars url w, ok tt)
    _ ← run m "cargo" contract_args
    run m "cargo" slice_args

  unfoldable pub core : Command W (Unit {0})
  core = do
    data_dir ← λ w. (w, ok (or_text ".allsource-data" (m.var w "ALLSOURCE_DATA_DIR")))
    exited ← λ w. or_io (m.status (core_call data_dir) w)
    guard exited core_failed

  -- The tasks by name.
  unfoldable pub task :
      String → String → Option String → Discovery W → String → Option (Command W (Unit {0}))
  unfolding ci live core build
  task os arch found discovery name =
      if str_eq name "ci"
      then some (ci os arch found)
      else if str_eq name "styles"
      then some (build m os arch found >>= λ sizes. pure tt)
      else if str_eq name "live"
      then some live
      else if str_eq name "core"
      then some core
      else if str_eq name "stage-web"
      then some discovery.stage
      else if str_eq name "stage-app"
      then some discovery.stage_app
      else if str_eq name "indexnow"
      then some discovery.notify_indexnow
      else none

  abbrev pub exit_of : W × Result Failure (Unit {0}) → W × ExitCode
  exit_of (w, ok done) = (w, success)
  exit_of (w, err e) = (w, failure)

  abbrev pub run_task : Option (Command W (Unit {0})) → W → W × ExitCode
  run_task none w = (w, failure)
  run_task (some command) w = exit_of (command w)

  abbrev pub named_task :
      String → String → Option String → Discovery W → Option String → Option (Command W (Unit {0}))
  named_task os arch found discovery none = none
  named_task os arch found discovery (some name) = task os arch found discovery name

  -- `main`, from its first argument.
  unfoldable pub main :
      String → String → Option String → Discovery W → Option String → W → W × ExitCode
  unfolding task
  main os arch found discovery argument = run_task (named_task os arch found discovery argument)
