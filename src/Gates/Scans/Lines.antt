-- ===== src/Gates/Scans/Lines.antt =====
-- The two gates over the lines that `grep` prints.
use mathlib.Core.List.Memᴰ
use mathlib.Core.List.{Memᴰ}
use rust_v.Prelude.{
  String, ◌≡◌, refl, ap, sym, subst, ◌∙◌, ◌↔◌, ◌⊎◌, inl, inr, Bool, true, not, ◌&&◌, ◌||◌, none,
  some, List, [], ◌∷◌, ok, filter, any, Bool-cases, All, arith,
}
use rust_v.Prelude.Text.{str_eq, str_eq_iff, str_eq_refl}
use rust_v.Prelude.Text.Search.{contains}
use rust_v.Prelude.Text.Lines.{lines}
use rust_v.Gates.Isa.{is_nil}
use rust_v.Gates.Machine.{
  Call, Output, Machine, then_run-ok, then_run-of, or_io, or_io-ok, or_io-of, guard-ok, guard-of,
}
use rust_v.Gates.Scans.{
  hue_opt_out, predecessor_opt_out, hue_scan, predecessor_scan, unmarked, split_match, licensed,
  is_licensed, mentions, no_hardcoded_hues, no_predecessor,
}

nil_iff :
    (p : String → Bool) (found : List String)
    → (is_nil (filter (λ line. not (p line)) found) ≡ true)
      ↔ All (λ (line : String). p line ≡ true) found
nil_iff p [] = (λ h. tt, λ h. refl)
nil_iff p (line ∷ found) = elim (Bool-cases (p line)) [
  | inl h ↦ rw h (let next = nil_iff p found in (λ k. (refl, next.0 k), λ k. next.1 k.1))
  | inr h ↦ rw h (λ k. absurd (ground arith), λ k. absurd (ground arith))
]

filter-filter :
    (p q : String → Bool) (found : List String)
    → filter (λ line. not (q line)) (filter (λ line. not (p line)) found)
      ≡ filter (λ line. not (p line || q line)) found
filter-filter p q [] = refl
filter-filter p q (line ∷ found) = elim (Bool-cases (p line)) [
  | inl h ↦ rw h (filter-filter p q found)
  | inr h ↦ elim (Bool-cases (q line)) [
    | inl k ↦ rw (h, k) (filter-filter p q found)
    | inr k ↦ rw (h, k) (ap (λ (l : List String). line ∷ l) (filter-filter p q found))
  ]
]

-- The file and the text of a line that the vendored sources may keep.
abbrev pub kept : List (String × String)
kept =
    ("./vendor/better-auth/src/lib.rs", "#[cfg(feature = \"sqlx-postgres\")]")
    ∷ (
      "./vendor/better-auth/Cargo.toml",
      "sqlx-postgres = [\"dep:sqlx\", \"better-auth-core/sqlx-postgres\"]",
    )
    ∷ (
      "./vendor/better-auth/Cargo.toml",
      "sqlx = { version = \"0.8\", optional = true, features = [\"runtime-tokio-rustls\", \"postgres\", \"chrono\", \"uuid\", \"json\"] }",
    )
    ∷ (
      "./vendor/better-auth/README.md",
      "| `sqlx-postgres` | PostgreSQL database support via SQLx |",
    )
    ∷ (
      "./vendor/better-auth/README.md",
      "cargo run --example postgres_usage --features sqlx-postgres",
    )
    ∷ []

abbrev pub IsLicensed : String → Type 0
IsLicensed line = Memᴰ (split_match line) kept

mem_iff :
    (found : String × String) (pairs : List (String × String))
    → (any (λ (pair : String × String). str_eq pair.0 found.0 && str_eq pair.1 found.1) pairs
        ≡ true)
      ↔ Memᴰ found pairs
mem_iff found [] = (λ h. absurd (ground arith), λ h. absurd (Memᴰ.not-nil h))
mem_iff found (pair ∷ pairs) =
    let next = mem_iff found pairs in
    (
      λ h. elim (Bool-cases (str_eq pair.0 found.0 && str_eq pair.1 found.1)) [
        | inl k ↦ Memᴰ.head (
            let e = (str_eq_iff pair.0 found.0).0 (ground arith) in
            let e' = (str_eq_iff pair.1 found.1).0 (ground arith) in λ i. (sym e i, sym e' i))
        | inr k ↦ Memᴰ.tail (next.0 (rw k at h))
      ],
      λ h. elim (Memᴰ.cases_cons h) [
        | inl e ↦
            subst
              (λ f.
                any (λ (pair : String × String). str_eq pair.0 f.0 && str_eq pair.1 f.1)
                  (pair ∷ pairs)
                ≡ true)
              (sym e) (rw (str_eq_refl pair.0, str_eq_refl pair.1) refl)
        | inr n ↦ ground (arith, next.1 n)
      ],
    )

is_licensed_iff : (line : String) → (is_licensed line ≡ true) ↔ IsLicensed line
unfolding is_licensed
is_licensed_iff line = mem_iff (split_match line) licensed

-- A line with the marker, or one that a license asks to keep.
abbrev pub IsAdmitted : String → Type 0
IsAdmitted line = (contains "predecessor-mention-ok" line ≡ true) ⊎ IsLicensed line

IsAdmitted-iff :
    (line : String)
    → ((contains predecessor_opt_out line || is_licensed line) ≡ true) ↔ IsAdmitted line
IsAdmitted-iff line = (
  λ h. elim (Bool-cases (contains predecessor_opt_out line)) [
    | inl k ↦ inl k
    | inr k ↦ inr ((is_licensed_iff line).0 (ground arith))
  ],
  λ h. elim h [ inl k ↦ rw k refl | inr k ↦ ground (arith, (is_licensed_iff line).1 k) ],
)

All_iff :
    (P Q : String → Type 0)
    → ((line : String) → P line ↔ Q line)
    → (found : List String) → All P found ↔ All Q found
All_iff P Q h [] = (λ k. k, λ k. k)
All_iff P Q h (line ∷ found) =
    let next = All_iff P Q h found in
    (λ k. ((h line).0 k.0, next.0 k.1), λ k. ((h line).1 k.0, next.1 k.1))

-- No line but those admitted mentions the predecessor.
pub mentions-All : (found : List String) → (is_nil (mentions found) ≡ true) ↔ All IsAdmitted found
unfolding mentions
mentions-All found =
    let e = filter-filter (λ line. contains predecessor_opt_out line) is_licensed found in
    let nil = nil_iff (λ line. contains predecessor_opt_out line || is_licensed line) found in
    let each =
      All_iff (λ line. (contains predecessor_opt_out line || is_licensed line) ≡ true) IsAdmitted
        IsAdmitted-iff found in
    (λ h. each.0 (nil.0 (ap is_nil (sym e) ∙ h)), λ h. ap is_nil e ∙ nil.1 (each.1 h))

-- The calls of `grep`, spelled out.
abbrev pub grep : List String → Call
grep arguments = record { program = "grep"; args = arguments; dir = none; vars = [] }

abbrev pub hue_arguments : List String
hue_arguments =
    "-rInE"
    ∷ "(bg|text|border|ring|fill|stroke|from|to|via|divide|outline|shadow|decoration|placeholder|caret|accent)-((slate|gray|zinc|neutral|stone|red|orange|amber|yellow|lime|green|emerald|teal|cyan|sky|blue|indigo|violet|purple|fuchsia|pink|rose)-(50|100|200|300|400|500|600|700|800|900|950)|white|black)"
    ∷ "--include=*.rs" ∷ "--exclude-dir=target" ∷ "--exclude-dir=xtask" ∷ "apps" ∷ "crates" ∷ []

abbrev pub predecessor_arguments : List String
predecessor_arguments =
    "-rInE" ∷ "supabase|postgres|pg2events" ∷ "--exclude-dir=.git" ∷ "--exclude-dir=target"
    ∷ "--exclude-dir=.github" ∷ "--exclude-dir=xtask" ∷ "." ∷ []

module _ {W : Type 0} (m : Machine W) where
  -- `grep` was run, and each line that it printed carries the marker.
  pub record NoHue (w w' : W) : Type 0 where
    pub output : Output
    pub ran : m.output (grep hue_arguments) w ≡ (w', some output)
    pub marked : All (λ (line : String). contains "hue-scan-ok" line ≡ true) (lines output.stdout)

  -- `grep` was run, and each line that it printed may stand.
  pub record NoPredecessor (w w' : W) : Type 0 where
    pub output : Output
    pub ran : m.output (grep predecessor_arguments) w ≡ (w', some output)
    pub admitted : All IsAdmitted (lines output.stdout)

  pub no_hardcoded_hues-NoHue : (w w' : W) → (no_hardcoded_hues m w ≡ (w', ok tt)) ↔ NoHue w w'
  unfolding no_hardcoded_hues
  no_hardcoded_hues-NoHue w w' =
      let nil =
        λ (output : Output). nil_iff (λ line. contains hue_opt_out line) (lines output.stdout) in
      (
        λ h.
            let (w1, output, h1, k1) = then_run-ok (or_io (m.output hue_scan w)) h in
            let (b, e) = guard-ok (is_nil (unmarked hue_opt_out (lines output.stdout))) _ k1 in
            record {
              output = output;
              ran = or_io-ok (m.output hue_scan w) h1 ∙ ap (λ (v : W). (v, some output)) e;
              marked = (nil output).0 b;
            },
        λ n. then_run-of _ (or_io-of n.ran) ∙ guard-of _ w' ((nil n.output).1 n.marked),
      )

  pub no_predecessor-NoPredecessor :
      (w w' : W) → (no_predecessor m w ≡ (w', ok tt)) ↔ NoPredecessor w w'
  unfolding no_predecessor
  no_predecessor-NoPredecessor w w' = (
    λ h.
        let (w1, output, h1, k1) = then_run-ok (or_io (m.output predecessor_scan w)) h in
        let (b, e) = guard-ok (is_nil (mentions (lines output.stdout))) _ k1 in
        record {
          output = output;
          ran = or_io-ok (m.output predecessor_scan w) h1 ∙ ap (λ (v : W). (v, some output)) e;
          admitted = (mentions-All (lines output.stdout)).0 b;
        },
    λ n.
        then_run-of _ (or_io-of n.ran)
        ∙ guard-of _ w' ((mentions-All (lines n.output.stdout)).1 n.admitted),
  )
