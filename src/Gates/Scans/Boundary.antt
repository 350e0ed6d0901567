-- ===== src/Gates/Scans/Boundary.antt =====
-- `wasm_boundary`: the crates that the apps compile, and those that they must not reach.
use Prim.Native.String
use rust_v.Prelude.{
  String, ◌≡◌, ◌≢◌, refl, ap, ◌∙◌, ◌↔◌, inl, inr, true, false, none, some, List, [], ◌∷◌, ok,
  Result, any, Bool-cases, Option-cases, All, arith,
}
use rust_v.Prelude.Text.Search.{
  begins_with, strip_prefix, strip_prefix-append, strip_prefix-of_append,
}
use rust_v.Prelude.Text.Lines.{lines}
use rust_v.Gates.Machine.{
  Failure, Call, Output, Machine, then_run-ok, then_run-of, or_io, or_io-ok, or_io-of, pure-ok,
  guard-ok, guard-of,
}
use rust_v.Gates.Scans.{
  call, run, tree_of, reaches, checked_tree, server_only, wasm_check, wasm_apps, boundary,
  wasm_boundary,
}

-- The line does not begin with the text.
abbrev pub Avoids : String → String → Type 0
Avoids text line = (rest : String) → line ≢ String.◌++◌ text rest

begins_with-Avoids : (text line : String) → (begins_with text line ≡ false) ↔ Avoids text line
unfolding begins_with
begins_with-Avoids text line = (
  λ h rest e. ground (arith, strip_prefix-of_append text rest),
  λ h. elim (Option-cases (strip_prefix text line)) [
    | inl e ↦ rw e refl
    | inr (rest, e) ↦ absurd (h rest (strip_prefix-append text line rest e))
  ],
)

any-Avoids :
    (text : String) (tree : List String)
    → (any (λ line. begins_with text line) tree ≡ false)
      ↔ All (λ (line : String). Avoids text line) tree
any-Avoids text [] = (λ h. tt, λ h. refl)
any-Avoids text (line ∷ tree) =
    let here = begins_with-Avoids text line in
    let next = any-Avoids text tree in
    (λ h. (here.0 (ground arith), next.0 (ground arith)), λ h. rw (here.1 h.0, next.1 h.1) refl)

-- No line of the tree names one of the crates, as `name v`.
abbrev pub IsFree : List String → List String → Type 0
IsFree crates tree =
    All (λ server_crate. All (λ line. Avoids (String.◌++◌ server_crate " v") line) tree) crates

checked_tree-IsFree :
    (app : String) (tree crates : List String)
    → (checked_tree app tree crates ≡ ok tt) ↔ IsFree crates tree
checked_tree-IsFree app tree [] = (λ h. tt, λ h. refl)
checked_tree-IsFree app tree (server_crate ∷ crates) =
    let here = any-Avoids (String.◌++◌ server_crate " v") tree in
    let next = checked_tree-IsFree app tree crates in
    elim (Bool-cases (reaches tree server_crate)) [
      | inl h ↦ (λ k. absurd (ground arith), λ k. absurd (ground (arith, here.1 k.0)))
      | inr h ↦ (λ k. (here.0 h, next.0 (rw h at k)), λ k. rw h (next.1 k.1))
    ]

-- The crates of the server, and the calls of Cargo, spelled out.
abbrev pub server_crates : List String
server_crates =
    "rv2-allsource" ∷ "rv2-shared" ∷ "better-auth-allsource" ∷ "rv2-analytics" ∷ "rv2-email"
    ∷ "rv2-jobs" ∷ []

abbrev pub tree_call : String → Call
tree_call app = record {
  program = "cargo";
  args = "tree" ∷ "--target" ∷ "wasm32-unknown-unknown" ∷ "-p" ∷ app ∷ "--prefix" ∷ "none" ∷ [];
  dir = none;
  vars = [];
}

abbrev pub browser_check : List String
browser_check =
    "check" ∷ "--target" ∷ "wasm32-unknown-unknown" ∷ "-p" ∷ "rv2-events" ∷ "-p" ∷ "rv2-domain"
    ∷ "-p" ∷ "rv2-ai" ∷ "-p" ∷ "rv2-api-types" ∷ "-p" ∷ "rv2-ui" ∷ "-p" ∷ "rv2-client" ∷ "-p"
    ∷ "app" ∷ "-p" ∷ "web" ∷ []

module _ {W : Type 0} (m : Machine W) where
  -- For each app in turn, `cargo tree` was run and its output is free of the server's crates.
  abbrev pub Apart : List String → W → W → Type 0
  Apart [] w w' = w ≡ w'
  Apart (app ∷ rest) w w' =
      (next : W) × (tree : Output) × (m.output (tree_call app) w ≡ (next, some tree))
      × IsFree server_crates (lines tree.stdout)
      × Apart rest next w'

  pub boundary-Apart :
      (apps : List String) (w w' : W) → (boundary m apps w ≡ (w', ok tt)) ↔ Apart apps w w'
  unfolding boundary
  boundary-Apart [] w w' = (λ h. (pure-ok h).0, λ h. ap (λ (v : W). (v, ok tt)) h)
  boundary-Apart (app ∷ rest) w w' = (
    λ h.
        let (w1, tree, h1, k1) = then_run-ok (or_io (m.output (tree_of app) w)) h in
        let (w2, done, h2, k2) =
          then_run-ok (w1, checked_tree app (lines tree.stdout) server_only) k1 in
        let e = ap (λ (p : W × Result Failure (Unit {0})). p.0) h2 in
        let free = ap (λ (p : W × Result Failure (Unit {0})). p.1) h2 in
        (
          w1,
          tree,
          or_io-ok (m.output (tree_of app) w) h1,
          (checked_tree-IsFree app (lines tree.stdout) server_only).0 free,
          (boundary-Apart rest w1 w').0 (ap (λ (v : W). boundary m rest v) e ∙ k2),
        ),
    λ (w1, tree, ran, free, later).
        then_run-of _ (or_io-of ran)
        ∙ then_run-of _ (
            ap (λ (r : Result Failure (Unit {0})). (w1, r))
              ((checked_tree-IsFree app (lines tree.stdout) server_only).1 free))
        ∙ (boundary-Apart rest w1 w').1 later,
  )

  -- The command was run from the world `w` and succeeded.
  abbrev pub Succeeds : String → List String → W → W → Type 0
  Succeeds program args w w' = m.status (call program args) w ≡ (w', some true)

  pub run-Succeeds :
      (program : String) (args : List String) (w w' : W)
      → (run m program args w ≡ (w', ok tt)) ↔ Succeeds program args w w'
  unfolding run
  run-Succeeds program args w w' = (
    λ h.
        let (w1, b, h1, k1) = then_run-ok (or_io (m.status (call program args) w)) h in
        let (t, e) = guard-ok b _ k1 in
        or_io-ok (m.status (call program args) w) h1 ∙ (λ i. (e i, some (t i))),
    λ h. then_run-of _ (or_io-of h) ∙ guard-of _ w' refl,
  )

  pub record IsBounded (w w' : W) : Type 0 where
    pub added : W
    pub checked : W
    pub target : Succeeds "rustup" ("target" ∷ "add" ∷ "wasm32-unknown-unknown" ∷ []) w added
    pub compiles : Succeeds "cargo" browser_check added checked
    pub apart : Apart ("app" ∷ "web" ∷ []) checked w'

  -- `wasm_boundary` passes exactly if the target can be added, the crates for the browser compile
  -- for it, and for each app `cargo tree` prints no line that begins with a crate of the server.
  pub wasm_boundary-IsBounded : (w w' : W) → (wasm_boundary m w ≡ (w', ok tt)) ↔ IsBounded w w'
  unfolding wasm_boundary
  wasm_boundary-IsBounded w w' = (
    λ h.
        let (w1, done, h1, k1) = then_run-ok (run m "rustup" _ w) h in
        let (w2, done', h2, k2) = then_run-ok (run m "cargo" wasm_check w1) k1 in
        record {
          added = w1;
          checked = w2;
          target = (run-Succeeds "rustup" _ w w1).0 h1;
          compiles = (run-Succeeds "cargo" wasm_check w1 w2).0 h2;
          apart = (boundary-Apart wasm_apps w2 w').0 k2;
        },
    λ b.
        then_run-of _ ((run-Succeeds "rustup" _ w b.added).1 b.target)
        ∙ then_run-of _ ((run-Succeeds "cargo" wasm_check b.added b.checked).1 b.compiles)
        ∙ (boundary-Apart wasm_apps b.checked w').1 b.apart,
  )
