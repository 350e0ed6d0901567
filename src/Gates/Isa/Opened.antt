-- ===== src/Gates/Isa/Opened.antt =====
-- The elements that `raw_elements` finds, and the end of its loop.
use Prim.Native.String
use mathlib.Core.List.Memᴰ
use mathlib.Core.List.{Memᴰ}
use text.Mathlib.TextLemmas.{nil-append, append_assoc}
use rust_v.Prelude.{
  ℕ, zero, suc, ◌<◌, String, ◌≡◌, refl, ap, sym, subst, ◌∙◌, inl, inr, true, false, Option, none,
  some, List, [], ◌∷◌, Bool-cases, Option-cases, arith, if◌then◌else◌,
}
use rust_v.Prelude.Text.{trim_start}
use rust_v.Prelude.Text.Search.{break_at, break_at-append, break_at-le}
use rust_v.Gates.Isa.{elements, is_comment, opens, joined, openings, all_openings, raw_elements}

abbrev found : ℕ → String → String → Option (String × String) → List String
found fuel name passed none = []
found fuel name passed (some (a, b)) =
    let later = openings fuel name (joined passed a name) b in
    if opens (String.◌++◌ passed a) b then name ∷ later else later

openings-suc :
    (fuel : ℕ) (name passed rest : String)
    → openings (suc fuel) name passed rest ≡ found fuel name passed (break_at name rest)
unfolding openings
openings-suc fuel name passed rest = ground arith

-- The loop of `raw_elements` for a name that is not empty ends before fuel that exceeds the length
-- of the text, and more fuel gives the same elements.
openings-enough :
    (n m : ℕ) (name passed rest : String)
    → 0 < String.count name
    → String.count rest < n
    → String.count rest < m
    → openings n name passed rest ≡ openings m name passed rest
openings-enough zero m name passed rest k h h' = absurd (omega arith)
openings-enough (suc n) zero name passed rest k h h' = absurd (omega arith)
openings-enough (suc n) (suc m) name passed rest k h h' =
    openings-suc n name passed rest
    ∙ elim (Option-cases (break_at name rest)) [
      | inl e ↦ rw e refl
      | inr ((a, b), e) ↦
          let shorter = break_at-le name rest a b e in
          rw (e, openings-enough n m name (joined passed a name) b k (omega arith) (omega arith))
            refl
    ]
    ∙ sym (openings-suc m name passed rest)

-- The name stands in the line between two texts that open an element.
pub record IsOpened (code name : String) : Type 0 where
  pub before : String
  pub rest : String
  pub stands : code ≡ String.◌++◌ before (String.◌++◌ name rest)
  pub opened : opens before rest ≡ true

joined_around :
    (code passed a name b rest : String)
    → code ≡ String.◌++◌ passed rest
    → rest ≡ String.◌++◌ a (String.◌++◌ name b)
    → code ≡ String.◌++◌ (String.◌++◌ passed a) (String.◌++◌ name b)
joined_around code passed a name b rest s e =
    s
    ∙ ap (λ (t : String). String.◌++◌ passed t) e
    ∙ sym (append_assoc passed a (String.◌++◌ name b))

joined_front :
    (passed a name b : String)
    → String.◌++◌ (String.◌++◌ passed a) (String.◌++◌ name b) ≡ String.◌++◌ (joined passed a name) b
joined_front passed a name b =
    sym (append_assoc (String.◌++◌ passed a) name b)
    ∙ ap (λ (t : String). String.◌++◌ t b) (append_assoc passed a name)

openings-IsOpened :
    (fuel : ℕ) (code name passed rest x : String)
    → code ≡ String.◌++◌ passed rest
    → Memᴰ x (openings fuel name passed rest)
    → (x ≡ name) × IsOpened code name
unfolding openings
openings-IsOpened zero code name passed rest x s m = absurd (Memᴰ.not-nil m)
openings-IsOpened (suc fuel) code name passed rest x s m =
    elim (Option-cases (break_at name rest)) [
      | inl e ↦ absurd (Memᴰ.not-nil (rw (openings-suc fuel name passed rest, e) at m))
      | inr ((a, b), e) ↦
          let c = joined_around code passed a name b rest s (break_at-append name rest a b e) in
          let next =
            openings-IsOpened fuel code name (joined passed a name) b x
              (c ∙ joined_front passed a name b) in
          elim (Bool-cases (opens (String.◌++◌ passed a) b)) [
            | inr h ↦ next (rw (openings-suc fuel name passed rest, e, h) at m)
            | inl h ↦ elim (Memᴰ.cases_cons (rw (openings-suc fuel name passed rest, e, h) at m)) [
              | inr n ↦ next n
              | inl i ↦
                  (i, record { before = String.◌++◌ passed a; rest = b; stands = c; opened = h })
            ]
          ]
    ]

all_openings-IsOpened :
    (names : List String) (code x : String)
    → Memᴰ x (all_openings names code)
    → Memᴰ x names × IsOpened code x
all_openings-IsOpened [] code x m = absurd (Memᴰ.not-nil m)
all_openings-IsOpened (name ∷ names) code x m =
    elim (Memᴰ.append_cases (openings (suc (String.count code)) name String.[] code)
      {t = all_openings names code} m) [
        | inl k ↦
            let (e, o) =
              openings-IsOpened (suc (String.count code)) code name String.[] code x
                (sym (nil-append code)) k in
            (Memᴰ.head e, subst (λ y. IsOpened code y) (sym e) o)
        | inr k ↦ let (n, o) = all_openings-IsOpened names code x k in (Memᴰ.tail n, o)
      ]

-- What `raw_elements` finds on a line that is no comment is one of the elements of the table, and
-- stands there where an element is opened: nothing but white space or a brace before it, and a
-- brace of its own behind it. On a comment it finds nothing.
raw_elements-IsOpened :
    (line name : String)
    → Memᴰ name (raw_elements line)
    → (is_comment line ≡ false) × Memᴰ name elements × IsOpened (trim_start line) name
unfolding raw_elements
raw_elements-IsOpened line name m = elim (Bool-cases (is_comment line)) [
  | inl h ↦ absurd (Memᴰ.not-nil (rw h at m))
  | inr h ↦
      let (n, o) = all_openings-IsOpened elements (trim_start line) name (rw h at m) in (h, n, o)
]
