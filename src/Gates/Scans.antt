-- ===== src/Gates/Scans.antt =====
-- tooling/xtask/src/main.rs: the gates that read the output of `grep` and of `cargo tree`, and the
-- gate that compiles the stylesheets again.
pub mod Lines
pub mod Boundary
pub mod Current
pub mod Unread
use Prim.Native.String
use rust_v.Prelude.{
  ℕ, String, Bool, true, false, not, ◌&&◌, ◌||◌, Option, none, some, List, [], ◌∷◌, ◌++◌, Result,
  ok, err, any, filter, ◌==◌, if◌then◌else◌,
}
use rust_v.Prelude.Text.{str_eq, split_once, trim}
use rust_v.Prelude.Text.Search.{contains, begins_with}
use rust_v.Prelude.Text.Lines.{lines}
use rust_v.Gates.Isa.{is_nil}
use rust_v.Gates.Machine.{
  Failure, io, command_failed, hue_named, predecessor_named, stale, reaches_server, Call, Output,
  Machine, Command, then_run, ◌>>=◌, pure, guard, fail, or_io,
}
use rust_v.Gates.Styles.{Stylesheet, join, committed, workspace_root, compile}

abbrev pub predecessor_opt_out : String
predecessor_opt_out = "predecessor-mention-ok"

abbrev pub hue_opt_out : String
hue_opt_out = "hue-scan-ok"

abbrev pub call : String → List String → Call
call program args = record { program = program; args = args; dir = none; vars = [] }

abbrev pub bar : String → String → String
bar a b = String.◌++◌ a (String.◌++◌ "|" b)

abbrev palettes : String
palettes =
    bar "slate|gray|zinc|neutral|stone|red|orange|amber|yellow|lime|green"
      "emerald|teal|cyan|sky|blue|indigo|violet|purple|fuchsia|pink|rose"

abbrev shades : String
shades = "50|100|200|300|400|500|600|700|800|900|950"

abbrev prefixes : String
prefixes =
    bar "bg|text|border|ring|fill|stroke|from|to|via|divide|outline|shadow"
      "decoration|placeholder|caret|accent"

-- `({PREFIXES})-(({PALETTES})-({SHADES})|white|black)`
abbrev pub pattern : String
pattern = String.◌++◌ "(" (
    String.◌++◌ prefixes (
      String.◌++◌ ")-(("
        (String.◌++◌ palettes (String.◌++◌ ")-(" (String.◌++◌ shades ")|white|black)")))))

abbrev pub hue_scan : Call
hue_scan = call "grep" (
    "-rInE" ∷ pattern ∷ "--include=*.rs" ∷ "--exclude-dir=target" ∷ "--exclude-dir=xtask" ∷ "apps"
    ∷ "crates" ∷ [])

-- The lines without the marker.
abbrev pub unmarked : String → List String → List String
unmarked marker found = filter (λ line. not (contains marker line)) found

abbrev pub predecessor_scan : Call
predecessor_scan = call "grep" (
    "-rInE" ∷ "supabase|postgres|pg2events" ∷ "--exclude-dir=.git" ∷ "--exclude-dir=target"
    ∷ "--exclude-dir=.github" ∷ "--exclude-dir=xtask" ∷ "." ∷ [])

-- `parts.next()` three times on `splitn(3, ':')`: the first part and the third, trimmed.
abbrev third : Option (String × String) → String
third none = ""
third (some (number, text)) = trim text

abbrev file_and_text : String → Option (String × String) → String × String
file_and_text line none = (line, "")
file_and_text line (some (file, rest)) = (file, third (split_once b':' rest))

unfoldable pub split_match : String → String × String
unfolding split_once trim
split_match line = file_and_text line (split_once b':' line)

-- The lines of the vendored sources that may stand as they are.
abbrev pub licensed : List (String × String)
licensed =
    ("./vendor/better-auth/src/lib.rs", "#[cfg(feature = \"sqlx-postgres\")]")
    ∷ (
      "./vendor/better-auth/Cargo.toml",
      "sqlx-postgres = [\"dep:sqlx\", \"better-auth-core/sqlx-postgres\"]",
    )
    ∷ (
      "./vendor/better-auth/Cargo.toml",
      "sqlx = { version = \"0.8\", optional = true, features = [\"runtime-tokio-rustls\", \"postgres\", \"chrono\", \"uuid\", \"json\"] }",
    )
    ∷ (
      "./vendor/better-auth/README.md",
      "| `sqlx-postgres` | PostgreSQL database support via SQLx |",
    )
    ∷ (
      "./vendor/better-auth/README.md",
      "cargo run --example postgres_usage --features sqlx-postgres",
    )
    ∷ []

unfoldable pub is_licensed : String → Bool
unfolding split_match
is_licensed line =
    any
      (λ (pair : String × String).
        str_eq pair.0 (split_match line).0 && str_eq pair.1 (split_match line).1)
      licensed

-- The two filters of `no_predecessor`.
unfoldable pub mentions : List String → List String
unfolding is_licensed contains
mentions found = filter (λ line. not (is_licensed line)) (unmarked predecessor_opt_out found)

abbrev pub server_only : List String
server_only =
    "rv2-allsource" ∷ "rv2-shared" ∷ "better-auth-allsource" ∷ "rv2-analytics" ∷ "rv2-email"
    ∷ "rv2-jobs" ∷ []

abbrev pub tree_of : String → Call
tree_of app =
    call "cargo"
      ("tree" ∷ "--target" ∷ "wasm32-unknown-unknown" ∷ "-p" ∷ app ∷ "--prefix" ∷ "none" ∷ [])

abbrev pub reaches : List String → String → Bool
reaches tree server_crate = any (λ line. begins_with (String.◌++◌ server_crate " v") line) tree

-- The loop over `SERVER_ONLY`.
abbrev pub checked_tree : String → List String → List String → Result Failure (Unit {0})
checked_tree app tree [] = ok tt
checked_tree app tree (server_crate ∷ rest) =
    let later = checked_tree app tree rest in
    if reaches tree server_crate then err (reaches_server app server_crate) else later

abbrev pub wasm_check : List String
wasm_check =
    "check" ∷ "--target" ∷ "wasm32-unknown-unknown" ∷ "-p" ∷ "rv2-events" ∷ "-p" ∷ "rv2-domain"
    ∷ "-p" ∷ "rv2-ai" ∷ "-p" ∷ "rv2-api-types" ∷ "-p" ∷ "rv2-ui" ∷ "-p" ∷ "rv2-client" ∷ "-p"
    ∷ "app" ∷ "-p" ∷ "web" ∷ []

abbrev pub wasm_apps : List String
wasm_apps = "app" ∷ "web" ∷ []

-- `std::fs::read(..).unwrap_or_default()`
abbrev pub or_default : Option (List ℕ) → List ℕ
or_default none = []
or_default (some contents) = contents

unfoldable pub same_bytes : List ℕ → List ℕ → Bool
same_bytes [] [] = true
same_bytes [] (b ∷ bs) = false
same_bytes (a ∷ as') [] = false
same_bytes (a ∷ as') (b ∷ bs) = a == b && same_bytes as' bs

module _ {W : Type 0} (m : Machine W) where
  -- Both streams are inherited.
  unfoldable pub run : String → List String → Command W (Unit {0})
  run program args = do
    success ← λ w. or_io (m.status (call program args) w)
    guard success (command_failed program args)

  unfoldable pub no_hardcoded_hues : Command W (Unit {0})
  unfolding lines contains
  no_hardcoded_hues = do
    output ← λ w. or_io (m.output hue_scan w)
    let offenders = unmarked hue_opt_out (lines output.stdout)
    guard (is_nil offenders) (hue_named offenders)

  unfoldable pub no_predecessor : Command W (Unit {0})
  unfolding lines mentions
  no_predecessor = do
    output ← λ w. or_io (m.output predecessor_scan w)
    let offenders = mentions (lines output.stdout)
    guard (is_nil offenders) (predecessor_named offenders)

  -- The loop over the apps.
  unfoldable pub boundary : List String → Command W (Unit {0})
  unfolding lines begins_with
  boundary [] = pure tt
  boundary (app ∷ rest) = do
    tree ← λ w. or_io (m.output (tree_of app) w)
    _ ← λ w. (w, checked_tree app (lines tree.stdout) server_only)
    boundary rest

  unfoldable pub wasm_boundary : Command W (Unit {0})
  unfolding run boundary
  wasm_boundary = do
    _ ← run "rustup" ("target" ∷ "add" ∷ "wasm32-unknown-unknown" ∷ [])
    _ ← run "cargo" wasm_check
    boundary wasm_apps

  -- The loop of `styles_are_current`: the sheets whose committed bytes differ.
  unfoldable pub stale_sheets : String → List Stylesheet → Command W (List String)
  unfolding same_bytes committed
  stale_sheets root [] = pure []
  stale_sheets root (sheet ∷ rest) = do
    fresh ← λ w. or_io (w, m.read w sheet.path)
    old ← λ w. (w, ok (or_default (m.read w (committed root sheet.app))))
    later ← stale_sheets root rest
    pure (if same_bytes old fresh then later else committed root sheet.app ∷ later)

  unfoldable pub styles_are_current : String → String → Option String → Command W (Unit {0})
  unfolding compile stale_sheets
  styles_are_current os arch found = do
    root ← workspace_root found
    sheets ← compile m os arch found (some (join root "target/style-check"))
    sheets_stale ← stale_sheets root sheets
    guard (is_nil sheets_stale) (stale sheets_stale)
