-- ===== src/Gates/Isa/Clean.antt =====
-- When `check` of isa.rs lets the apps pass.
use mathlib.Core.List.Memᴰ
use mathlib.Core.List.{Memᴰ}
use rust_v.Prelude.{
  ℕ, String, ◌≡◌, refl, ap, sym, subst, ◌∙◌, ◌↔◌, inl, inr, true, Option, none, some, List, [], ◌∷◌,
  ◌++◌, ok, ◌>>=◌, bind-ok, ok-injective, Bool-cases, All, length, arith,
}
use rust_v.Prelude.Text.Lines.{lines}
use rust_v.Gates.Isa.{Offender, scan, is_nil}
use rust_v.Gates.Isa.Excused.{Reported, scan-Reported}
use rust_v.Gates.Isa.Sources.{
  Entries, Source, app_sources, path_lt, insert_source, sort, shown, read_to_string, scan_all,
  check_sources,
}

-- The file can be read, and no line of it is reported.
pub record IsClean (s : Source) : Type 0 where
  pub source : String
  pub text : s.text ≡ some source
  pub clean : (o : Offender) → Reported (shown s.path) 0 [] (lines source) o → ⊥

All-insert :
    (s : Source) (sources : List Source)
    → All IsClean (s ∷ sources) ↔ All IsClean (insert_source s sources)
unfolding insert_source
All-insert s [] = (λ h. h, λ h. h)
All-insert s (t ∷ sources) = elim (Bool-cases (path_lt t.path s.path)) [
  | inr h ↦ rw h (λ k. k, λ k. k)
  | inl h ↦
      let next = All-insert s sources in
      rw h (λ k. (k.1.0, next.0 (k.0, k.1.1)), λ k. let k' = next.1 k.1 in (k'.0, (k.0, k'.1)))
]

All-sort : (sources : List Source) → All IsClean sources ↔ All IsClean (sort sources)
unfolding sort
All-sort [] = (λ h. h, λ h. h)
All-sort (s ∷ sources) =
    let step = All-insert s (sort sources) in
    let next = All-sort sources in
    (λ h. step.0 (h.0, next.0 h.1), λ h. let k = step.1 h in (k.0, next.1 k.1))

no_member : (os : List Offender) → ((o : Offender) → Memᴰ o os → ⊥) → os ≡ []
no_member [] h = refl
no_member (o ∷ os) h = absurd (h o (Memᴰ.head refl))

append-nil_parts : (xs ys : List Offender) → xs ++ ys ≡ [] → (xs ≡ []) × (ys ≡ [])
append-nil_parts [] ys h = (refl, h)
append-nil_parts (x ∷ xs) ys h = absurd (ground arith)

scan_all-cons :
    (s : Source) (sources : List Source)
    → scan_all (s ∷ sources) ≡ (
        read_to_string s.path s.text >>= λ source.
        scan_all sources >>= λ rest. ok (scan (shown s.path) source ++ rest))
unfolding scan_all
scan_all-cons s sources = refl

read_to_string-ok :
    (path : List String) (text : Option String) (source : String)
    → read_to_string path text ≡ ok source
    → text ≡ some source
read_to_string-ok path none source h = absurd (ground arith)
read_to_string-ok path (some t) source h = ground arith

scan_all-IsClean : (sources : List Source) → scan_all sources ≡ ok [] → All IsClean sources
scan_all-IsClean [] h = tt
scan_all-IsClean (s ∷ sources) h =
    let (source, h1, k1) =
      bind-ok (read_to_string s.path s.text) (sym (scan_all-cons s sources) ∙ h) in
    let (rest, h2, k2) = bind-ok (scan_all sources) k1 in
    let (e, e') = append-nil_parts (scan (shown s.path) source) rest (ok-injective k2) in
    (
      record {
        source = source;
        text = read_to_string-ok s.path s.text source h1;
        clean = λ o r.
            Memᴰ.not-nil (subst (λ l. Memᴰ o l) e ((scan-Reported (shown s.path) source o).1 r));
      },
      scan_all-IsClean sources (h2 ∙ ap (λ (l : List Offender). ok l) e'),
    )

scan_all-of_IsClean : (sources : List Source) → All IsClean sources → scan_all sources ≡ ok []
scan_all-of_IsClean [] h = unfold scan_all in refl
scan_all-of_IsClean (s ∷ sources) (c, h) =
    let e =
      no_member (scan (shown s.path) c.source)
        (λ o m. c.clean o ((scan-Reported (shown s.path) c.source o).0 m)) in
    scan_all-cons s sources ∙ rw (scan_all-of_IsClean sources h) (rw (c.text, e) refl)

is_nil-of : (os : List Offender) → is_nil os ≡ true → os ≡ []
is_nil-of [] h = refl
is_nil-of (o ∷ os) h = absurd (ground arith)

-- `check` passes exactly if every Rust file below a directory `src` of an app can be read and has no
-- line that opens a raw element, does not carry the marker, and has no comment with the marker
-- directly above.
pub check_sources-IsClean :
    (apps : Entries) → ((n : ℕ) × (check_sources apps ≡ ok n)) ↔ All IsClean (app_sources apps)
unfolding check_sources
check_sources-IsClean apps = (
  λ (n, h).
      let (os, h1, k1) = bind-ok (scan_all (sort (app_sources apps))) h in
      let e =
        is_nil-of os
          (elim (Bool-cases (is_nil os)) [ inl y ↦ y | inr y ↦ absurd (ground arith) ]) in
      (All-sort (app_sources apps)).1
        (scan_all-IsClean (sort (app_sources apps)) (h1 ∙ ap (λ (l : List Offender). ok l) e)),
  λ h. (
    length (sort (app_sources apps)),
    rw (scan_all-of_IsClean (sort (app_sources apps)) ((All-sort (app_sources apps)).0 h)) refl,
  ),
)
