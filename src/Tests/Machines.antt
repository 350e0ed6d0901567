-- ===== src/Tests/Machines.antt =====
-- A machine on which every command succeeds and prints nothing: its world counts the commands.
use rust_v.Prelude.{ℕ, suc, ◌≡◌, ◌↔◌, refl, true, false, none, some, List, [], ◌∷◌, ok, err}
use rust_v.Gates.Isa.Sources.{nothing}
use rust_v.Gates.Machine.{Machine, then_run, guard, reaches_server}
use rust_v.Gates.Styles.{Stylesheet, apps, committed, compile}
use rust_v.Gates.Styles.Plausible.{ArePlausible, compile-ArePlausible}
use rust_v.Gates.Styles.Kept.{IsConfined, styles_are_current-read}
use rust_v.Gates.Scans.{boundary, wasm_apps, styles_are_current, no_hardcoded_hues, no_predecessor}
use rust_v.Gates.Scans.Unread.{silent, scans_unread}
use rust_v.Gates.Steps.{Discovery, success, failure, main}
use rust_v.Gates.Steps.Passed.{IsPassed}
use rust_v.Gates.Steps.Exit.{main-IsPassed}

abbrev quiet : Machine ℕ
quiet = record {
  status = λ c w. (suc w, some true);
  output = λ c w. (w, some (silent true));
  exists = λ w p. true;
  create_dir_all = λ p w. (w, true);
  set_mode = λ p w. (w, true);
  read = λ w p. some (1 ∷ 2 ∷ []);
  size = λ w p. some 4096;
  apps = λ w. some nothing;
  var = λ w name. none;
  set_var = λ name value w. w;
}

abbrev discovery : Discovery ℕ
discovery = record {
  stage = λ w. (w, ok tt);
  stage_app = λ w. (w, ok tt);
  notify_indexnow = λ w. (w, ok tt);
}

-- Four commands of Cargo, two stylesheets, and the two commands of the last gate.
all_pass : main quiet "linux" "x86_64" (some "/work") discovery (some "ci") 0 ≡ (8, success)
unfolding main then_run guard
all_pass = refl

no_task : main quiet "linux" "x86_64" (some "/work") discovery (some "deploy") 0 ≡ (0, failure)
unfolding main
no_task = refl

main-IsPassed_example :
    (main quiet "linux" "x86_64" (some "/work") discovery (some "ci") 0 ≡ (8, success))
    ↔ IsPassed quiet "linux" "x86_64" (some "/work") 0 8
main-IsPassed_example = main-IsPassed quiet "linux" "x86_64" (some "/work") discovery 0 8

abbrev sheets : List Stylesheet
sheets =
    record { app = "web"; path = "/work/apps/web/assets/tailwind.css"; bytes = 4096 }
    ∷ record { app = "app"; path = "/work/apps/app/assets/tailwind.css"; bytes = 4096 }
    ∷ []

compiled : compile quiet "linux" "x86_64" (some "/work") none 0 ≡ (2, ok sheets)
unfolding compile then_run guard
compiled = refl

compile-ArePlausible_example : ArePlausible quiet "linux" "x86_64" "/work" none apps sheets
compile-ArePlausible_example =
    compile-ArePlausible quiet "linux" "x86_64" "/work" none 0 2 sheets compiled

abbrev confined : IsConfined quiet (committed "/work" "web")
confined = record {
  tailwind_keeps = λ root binary input output w h. refl;
  download_keeps = λ binary url w h. refl;
  create_keeps = λ dir w. refl;
  mode_keeps = λ path w. refl;
}

styles_are_current-read_example :
    quiet.read
      (styles_are_current quiet "linux" "x86_64" (some "/work") 0).0
      (committed "/work" "web")
    ≡ quiet.read 0 (committed "/work" "web")
styles_are_current-read_example =
    styles_are_current-read quiet "linux" "x86_64" "/work" "web" confined 0

-- Every scanning command fails.
abbrev broken : Machine ℕ
broken = record quiet { output = λ c w. (w, some (silent false)) }

scans_unread_example :
    (no_hardcoded_hues broken 0 ≡ (0, ok tt))
    × (no_predecessor broken 0 ≡ (0, ok tt))
    × (boundary broken wasm_apps 0 ≡ (0, ok tt))
scans_unread_example = scans_unread broken false 0 refl refl (λ app. refl)

abbrev leaky : Machine ℕ
leaky = record quiet {
  output = λ c w. (w, some (record { success = true; stdout = "web v0.1.0\nrv2-email v0.1.0\n" }));
}

leak_is_found : boundary leaky wasm_apps 0 ≡ (0, err (reaches_server "app" "rv2-email"))
unfolding boundary then_run
leak_is_found = refl
