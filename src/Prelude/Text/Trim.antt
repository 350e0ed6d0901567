-- ===== src/Prelude/Text/Trim.antt =====
-- Trimming a second time changes nothing.
use Prim.Native.Char.{Char, code}
use Prim.Native.String.{String}
use mathlib.Core.Path.{◌≡◌, refl}
use mathlib.Core.Bool.{true, false, ◌&&◌}
use mathlib.Core.Logic.{inl, inr}
use rust_v.Prelude.Tests.{Bool-cases}
use rust_v.Prelude.Text.{is_whitespace, is_empty, trim_start, trim_end, trim, trim_end_step}

module _ (c : Char) (s : String) where
  trim_start-white : is_whitespace (code c) ≡ true → trim_start (String.◌∷◌ c s) ≡ trim_start s
  unfolding trim_start
  trim_start-white h = rw h

  trim_start-ink : is_whitespace (code c) ≡ false → trim_start (String.◌∷◌ c s) ≡ String.◌∷◌ c s
  unfolding trim_start
  trim_start-ink h = rw h

  trim_end-ink :
      is_whitespace (code c) ≡ false → trim_end (String.◌∷◌ c s) ≡ String.◌∷◌ c (trim_end s)
  unfolding trim_end
  trim_end-ink h = rw h

trim_end-cons : (c : Char) (s : String) → trim_end (String.◌∷◌ c s) ≡ trim_end_step c (trim_end s)
unfolding trim_end
trim_end-cons c s = refl

trim_start_idem : (s : String) → trim_start (trim_start s) ≡ trim_start s
trim_start_idem String.[] = unfold trim_start in refl
trim_start_idem (String.◌∷◌ c s) = elim (Bool-cases (is_whitespace (code c))) [
  | inl h ↦ rw (trim_start-white c s h) (trim_start_idem s)
  | inr h ↦ rw (trim_start-ink c s h) (trim_start-ink c s h)
]

trim_end_step_idem :
    (c : Char) (r : String) → trim_end r ≡ r → trim_end (trim_end_step c r) ≡ trim_end_step c r
trim_end_step_idem c r e = elim (Bool-cases (is_whitespace (code c) && is_empty r)) [
  | inl h ↦ rw h (unfold trim_end in refl)
  | inr h ↦ rw h (unfold trim_end in rw (e, h))
]

trim_end_idem : (s : String) → trim_end (trim_end s) ≡ trim_end s
trim_end_idem String.[] = unfold trim_end in refl
trim_end_idem (String.◌∷◌ c s) =
    rw (trim_end-cons c s) (trim_end_step_idem c (trim_end s) (trim_end_idem s))

-- Cutting the end leaves a start with no white character as it is.
trim_start-trim_end : (s : String) → trim_start (trim_end (trim_start s)) ≡ trim_end (trim_start s)
trim_start-trim_end String.[] = unfold trim_start trim_end in refl
trim_start-trim_end (String.◌∷◌ c s) = elim (Bool-cases (is_whitespace (code c))) [
  | inl h ↦ rw (trim_start-white c s h) (trim_start-trim_end s)
  | inr h ↦ rw (trim_start-ink c s h, trim_end-ink c s h) (trim_start-ink c (trim_end s) h)
]

pub trim_idem : (s : String) → trim (trim s) ≡ trim s
unfolding trim
trim_idem s = rw (trim_start-trim_end s) (trim_end_idem (trim_start s))
