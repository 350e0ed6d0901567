-- ===== src/Prelude/Text/Lowercase.antt =====
-- Rust's `to_ascii_lowercase`.
use Prim.Native.Char.{Char, char, code, IsScalar}
use Prim.Native.Nat.{ℕ, ◌+◌, ◌<◌, ◌≤◌, compare, Ordering}
use Prim.Native.String.{String}
use mathlib.Core.Path.{◌≡◌, refl, ap, ◌∙◌}
use mathlib.Core.Bool.{Bool, true, false, ◌&&◌}
use mathlib.Core.Logic.{◌⊎◌, inl, inr}
use native.Mathlib.Omega.{arith}
use text.Mathlib.TextEquality.{Char-path}
use rust_v.Prelude.Tests.{leb, ◌==◌, if◌then◌else◌, Bool-cases}
use rust_v.Prelude.Text.{
  is_whitespace, is_empty, trim_start, trim_end, trim, trim_end_step, contains_char,
}

abbrev is_upper : ℕ → Bool
is_upper c = leb b'A' c && leb c b'Z'

compare-below : (n m : ℕ) → n < m → compare n m ≡ Ordering.lt
compare-below n m h = ground arith

IsScalar-ascii : (n : ℕ) → n < 128 → IsScalar n
IsScalar-ascii n h = rw (compare-below n 55296 (omega arith)) tt

is_upper-below : (n : ℕ) → is_upper n ≡ true → n + 32 < 128
is_upper-below n h = ground arith

lowercase_of : (c : Char) → (is_upper (code c) ≡ true) ⊎ (is_upper (code c) ≡ false) → Char
lowercase_of c (inl h) =
    char (code c + 32) (IsScalar-ascii (code c + 32) (is_upper-below (code c) h))
lowercase_of c (inr h) = c

-- `c.to_ascii_lowercase()`
pub lowercase : Char → Char
unfolding lowercase_of
lowercase c = lowercase_of c (Bool-cases (is_upper (code c)))

unfoldable pub to_ascii_lowercase : String → String
to_ascii_lowercase String.[] = String.[]
to_ascii_lowercase (String.◌∷◌ c s) = String.◌∷◌ (lowercase c) (to_ascii_lowercase s)

code-lowercase :
    (c : Char) → code (lowercase c) ≡ (if is_upper (code c) then code c + 32 else code c)
unfolding lowercase
code-lowercase c = go (Bool-cases (is_upper (code c)))
  where
    go :
        (h : (is_upper (code c) ≡ true) ⊎ (is_upper (code c) ≡ false))
        → code (lowercase_of c h) ≡ (if is_upper (code c) then code c + 32 else code c)
    go (inl h) = rw h refl
    go (inr h) = rw h refl

code-same : (c : Char) → is_upper (code c) ≡ false → code (lowercase c) ≡ code c
code-same c h = code-lowercase c ∙ rw h refl

code-below : (c : Char) → is_upper (code c) ≡ true → code (lowercase c) ≡ code c + 32
code-below c h = code-lowercase c ∙ rw h refl

letter-ink : (n : ℕ) → 65 ≤ n → n ≤ 122 → is_whitespace n ≡ false
unfolding is_whitespace
letter-ink n h k = ground arith

is_whitespace-lowercase : (c : Char) → is_whitespace (code (lowercase c)) ≡ is_whitespace (code c)
is_whitespace-lowercase c = elim (Bool-cases (is_upper (code c))) [
  | inr h ↦ ap (λ n. is_whitespace n) (code-same c h)
  | inl h ↦
      let lo : 65 ≤ code c = ground arith in
      let hi : code c ≤ 90 = ground arith in
      rw
        (
          code-below c h,
          letter-ink (code c) lo (omega arith),
          letter-ink (code c + 32) (omega arith) (omega arith),
        )
        refl
]

comma-lowercase : (c : Char) → (code (lowercase c) == b',') ≡ (code c == b',')
comma-lowercase c = elim (Bool-cases (is_upper (code c))) [
  | inr h ↦ ap (λ n. n == b',') (code-same c h)
  | inl h ↦ rw (code-below c h) (ground arith)
]

lowercase_idem : (c : Char) → lowercase (lowercase c) ≡ lowercase c
lowercase_idem c = Char-path (lowercase (lowercase c)) (lowercase c) (code-same (lowercase c) lower)
  where
    lower : is_upper (code (lowercase c)) ≡ false
    lower = elim (Bool-cases (is_upper (code c))) [
      | inr h ↦ rw (code-same c h) h
      | inl h ↦ rw (code-below c h) (ground arith)
    ]

pub to_ascii_lowercase_idem :
    (s : String) → to_ascii_lowercase (to_ascii_lowercase s) ≡ to_ascii_lowercase s
unfolding to_ascii_lowercase
to_ascii_lowercase_idem String.[] = refl
to_ascii_lowercase_idem (String.◌∷◌ c s) = rw (lowercase_idem c, to_ascii_lowercase_idem s) refl

pub is_empty-to_ascii_lowercase : (s : String) → is_empty (to_ascii_lowercase s) ≡ is_empty s
unfolding to_ascii_lowercase
is_empty-to_ascii_lowercase String.[] = refl
is_empty-to_ascii_lowercase (String.◌∷◌ c s) = refl

pub comma-to_ascii_lowercase :
    (s : String) → contains_char b',' (to_ascii_lowercase s) ≡ contains_char b',' s
unfolding to_ascii_lowercase contains_char
comma-to_ascii_lowercase String.[] = refl
comma-to_ascii_lowercase (String.◌∷◌ c s) = rw (comma-lowercase c, comma-to_ascii_lowercase s) refl

trim_start-to_ascii_lowercase :
    (s : String) → trim_start (to_ascii_lowercase s) ≡ to_ascii_lowercase (trim_start s)
unfolding to_ascii_lowercase trim_start
trim_start-to_ascii_lowercase String.[] = refl
trim_start-to_ascii_lowercase (String.◌∷◌ c s) = elim (Bool-cases (is_whitespace (code c))) [
  | inl h ↦ rw (is_whitespace-lowercase c, h) (trim_start-to_ascii_lowercase s)
  | inr h ↦ rw (is_whitespace-lowercase c, h) refl
]

trim_end_step-lowercase :
    (c : Char) (r : String)
    → trim_end_step (lowercase c) (to_ascii_lowercase r) ≡ to_ascii_lowercase (trim_end_step c r)
trim_end_step-lowercase c r = elim (Bool-cases (is_whitespace (code c) && is_empty r)) [
  | inl h ↦
      rw (is_whitespace-lowercase c, is_empty-to_ascii_lowercase r, h)
        (unfold to_ascii_lowercase in refl)
  | inr h ↦
      rw (is_whitespace-lowercase c, is_empty-to_ascii_lowercase r, h)
        (unfold to_ascii_lowercase in refl)
]

trim_end-to_ascii_lowercase :
    (s : String) → trim_end (to_ascii_lowercase s) ≡ to_ascii_lowercase (trim_end s)
unfolding to_ascii_lowercase trim_end
trim_end-to_ascii_lowercase String.[] = refl
trim_end-to_ascii_lowercase (String.◌∷◌ c s) =
    ap (λ (r : String). trim_end_step (lowercase c) r) (trim_end-to_ascii_lowercase s)
    ∙ trim_end_step-lowercase c (trim_end s)

pub trim-to_ascii_lowercase :
    (s : String) → trim (to_ascii_lowercase s) ≡ to_ascii_lowercase (trim s)
unfolding trim
trim-to_ascii_lowercase s =
    rw (trim_start-to_ascii_lowercase s) (trim_end-to_ascii_lowercase (trim_start s))

HasNoUpper : String → Type 0
HasNoUpper String.[] = Unit
HasNoUpper (String.◌∷◌ c s) = (is_upper (code c) ≡ false) × HasNoUpper s

to_ascii_lowercase-HasNoUpper : (s : String) → HasNoUpper s → to_ascii_lowercase s ≡ s
unfolding to_ascii_lowercase HasNoUpper
to_ascii_lowercase-HasNoUpper String.[] h = refl
to_ascii_lowercase-HasNoUpper (String.◌∷◌ c s) (h, hs) =
    rw (Char-path (lowercase c) c (code-same c h), to_ascii_lowercase-HasNoUpper s hs) refl

pub to_ascii_lowercase_user : to_ascii_lowercase "user" ≡ "user"
to_ascii_lowercase_user =
    to_ascii_lowercase-HasNoUpper "user" (unfold HasNoUpper in (refl, (refl, (refl, (refl, tt)))))
