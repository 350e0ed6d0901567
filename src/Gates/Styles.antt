-- ===== src/Gates/Styles.antt =====
-- tooling/xtask/src/styles.rs: the stylesheets of the apps, compiled by Tailwind's binary.
pub mod Plausible
pub mod Kept
use Prim.Native.String
use rust_v.Prelude.{
  ℕ, String, Bool, true, false, not, ◌&&◌, Option, none, some, List, [], ◌∷◌, map, Result, ok, err,
  ltb, if◌then◌else◌,
}
use rust_v.Prelude.Text.{str_eq}
use rust_v.Gates.Machine.{
  Failure, io, no_root, no_input, tailwind_failed, too_few_bytes, no_platform, no_download, Call,
  Machine, Command, then_run, ◌>>=◌, pure, guard, fail, lift, or_io, unit_or_io,
}

abbrev pub tailwind_version : String
tailwind_version = "v4.3.3"

abbrev pub min_plausible_css_bytes : ℕ
min_plausible_css_bytes = 2048

pub record App : Type 0 where
  pub name : String
  pub dir : String

abbrev pub apps : List App
apps = record { name = "web"; dir = "apps/web" } ∷ record { name = "app"; dir = "apps/app" } ∷ []

pub record Stylesheet : Type 0 where
  pub app : String
  pub path : String
  pub bytes : ℕ

-- `Path::join` with a relative path.
abbrev pub join : String → String → String
join path part = String.◌++◌ path (String.◌++◌ "/" part)

abbrev dir_of : String → List App → String
dir_of name [] = "apps"
dir_of name (app ∷ rest) = if str_eq app.name name then app.dir else dir_of name rest

unfoldable pub committed : String → String → String
committed root app = join (join root (dir_of app apps)) "assets/tailwind.css"

-- The table of platforms, by operating system and architecture.
abbrev pub platform_of : String → String → Result Failure String
platform_of os arch =
    if str_eq os "macos" && str_eq arch "aarch64"
    then ok "macos-arm64"
    else if str_eq os "macos" && str_eq arch "x86_64"
    then ok "macos-x64"
    else if str_eq os "linux" && str_eq arch "aarch64"
    then ok "linux-arm64"
    else if str_eq os "linux" && str_eq arch "x86_64"
    then ok "linux-x64"
    else err (no_platform os arch)

abbrev pub release_url : String → String
release_url platform =
    String.◌++◌ "https://github.com/tailwindlabs/tailwindcss/releases/download/"
      (String.◌++◌ tailwind_version (String.◌++◌ "/tailwindcss-" platform))

-- `-sL --fail -o binary url`
abbrev pub download : String → String → Call
download binary url = record {
  program = "curl";
  args = "-sL" ∷ "--fail" ∷ "-o" ∷ binary ∷ url ∷ [];
  dir = none;
  vars = [];
}

abbrev pub tailwind : String → String → String → String → Call
tailwind root binary input output = record {
  program = binary;
  args = "-i" ∷ input ∷ "-o" ∷ output ∷ "--minify" ∷ [];
  dir = some root;
  vars = [];
}

abbrev pub output_of : String → Option String → App → String
output_of root none app = join (join root app.dir) "assets/tailwind.css"
output_of root (some out) app = join out (String.◌++◌ app.name ".css")

abbrev pub workspace_root : {W : Type 0} → Option String → Command W String
workspace_root none = fail no_root
workspace_root (some root) = pure root

module _ {W : Type 0} (m : Machine W) (os arch : String) where
  abbrev fetch : String → String → Command W String
  fetch root binary = do
    platform ← lift (platform_of os arch)
    _ ← λ w. unit_or_io (m.create_dir_all (join root "target") w)
    success ← λ w. or_io (m.status (download binary (release_url platform)) w)
    _ ← guard success (no_download (release_url platform))
    _ ← λ w. unit_or_io (m.set_mode binary w)
    pure binary

  -- On Unix.
  unfoldable pub ensure_tailwind : String → Command W String
  ensure_tailwind root w =
      let binary = join root "target/tailwindcss" in
      if m.exists w binary then (w, ok binary) else fetch root binary w

  abbrev created : Option String → Command W (Unit {0})
  created none = pure tt
  created (some dir) = λ w. unit_or_io (m.create_dir_all dir w)

  -- What the loop of `compile` does for an app.
  unfoldable pub compile_app : String → String → Option String → App → Command W Stylesheet
  compile_app root binary out_dir app = do
    let input = join (join root app.dir) "assets/input.css"
    let output = output_of root out_dir app
    present ← λ w. (w, ok (m.exists w input))
    _ ← guard present (no_input app.name)
    success ← λ w. or_io (m.status (tailwind root binary input output) w)
    _ ← guard success (tailwind_failed app.name)
    bytes ← λ w. or_io (w, m.size w output)
    _ ← guard (not (ltb bytes min_plausible_css_bytes)) (too_few_bytes app.name bytes)
    pure (record { app = app.name; path = output; bytes = bytes })

  -- The loop, which stops at the first app that fails.
  unfoldable pub compile_all :
      String → String → Option String → List App → Command W (List Stylesheet)
  unfolding compile_app
  compile_all root binary out_dir [] = pure []
  compile_all root binary out_dir (app ∷ rest) = do
    sheet ← compile_app root binary out_dir app
    sheets ← compile_all root binary out_dir rest
    pure (sheet ∷ sheets)

  unfoldable pub compile : Option String → Option String → Command W (List Stylesheet)
  unfolding ensure_tailwind compile_all
  compile found out_dir = do
    root ← workspace_root found
    binary ← ensure_tailwind root
    _ ← created out_dir
    compile_all root binary out_dir apps

  -- `build`, where the sheets lie in the working tree.
  unfoldable pub build : Option String → Command W (List (String × ℕ))
  unfolding compile
  build found = do
    sheets ← compile found none
    pure (map (λ (sheet : Stylesheet). (sheet.app, sheet.bytes)) sheets)
