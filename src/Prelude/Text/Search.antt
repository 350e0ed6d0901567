-- ===== src/Prelude/Text/Search.antt =====
-- Searching in a text: Rust's `strip_prefix`, `find` with the parts around the match, `contains`,
-- `ends_with`, `trim_end_matches`, `replace` of a character, and a test of every character.
use Prim.Native.Char.{Char, code}
use Prim.Native.Nat.{ℕ, ◌+◌, ◌≤◌}
use Prim.Native.String
use Prim.Native.String.{String}
use mathlib.Core.Path.{◌≡◌, refl, ap, sym, ◌∙◌}
use mathlib.Core.Bool.{Bool, true, false, ◌&&◌, ◌||◌}
use mathlib.Core.Logic.{inl, inr}
use mathlib.Core.Option.{Option, none, some}
use native.Mathlib.Omega.{arith}
use text.Mathlib.TextEquality.{Char-path}
use text.Mathlib.TextLemmas.{nil-append, cons-append, length-append}
use rust_v.Prelude.Tests.{◌==◌, ==_iff, if◌then◌else◌, Bool-cases, Option-cases}
use rust_v.Prelude.Text.{cons_fst, is_empty, str_eq}

-- `s.strip_prefix(p)`, the pattern first.
unfoldable pub strip_prefix : String → String → Option String
strip_prefix String.[] s = some s
strip_prefix (String.◌∷◌ d p) String.[] = none
strip_prefix (String.◌∷◌ d p) (String.◌∷◌ c s) =
    let rest = strip_prefix p s in if code c == code d then rest else none

abbrev is_some {ℓ} : {A : Type ℓ} → Option A → Bool
is_some none = false
is_some (some _) = true

unfoldable pub begins_with : String → String → Bool
unfolding strip_prefix
begins_with p s = is_some (strip_prefix p s)

abbrev first_or : Option String → Option (String × String) → Option (String × String)
first_or (some r) later = some (String.[], r)
first_or none later = later

-- `s.find(p)`, as the parts before and behind the first match.
unfoldable pub break_at : String → String → Option (String × String)
break_at p String.[] = first_or (strip_prefix p String.[]) none
break_at p (String.◌∷◌ c s) = first_or (strip_prefix p (String.◌∷◌ c s)) (cons_fst c (break_at p s))

unfoldable pub contains : String → String → Bool
unfolding break_at
contains p s = is_some (break_at p s)

unfoldable pub ends_with : String → String → Bool
ends_with p String.[] = str_eq String.[] p
ends_with p (String.◌∷◌ c s) = str_eq (String.◌∷◌ c s) p || ends_with p s

abbrev pub drop_end : ℕ → Char → String → String
drop_end k c r = if code c == k && is_empty r then String.[] else String.◌∷◌ c r

-- `s.trim_end_matches(k)` for a character.
unfoldable pub trim_end_matches : ℕ → String → String
trim_end_matches k String.[] = String.[]
trim_end_matches k (String.◌∷◌ c s) = drop_end k c (trim_end_matches k s)

-- `s.replace(k, r)` for a character.
unfoldable pub replace_char : ℕ → String → String → String
replace_char k r String.[] = String.[]
replace_char k r (String.◌∷◌ c s) =
    let rest = replace_char k r s in if code c == k then String.◌++◌ r rest else String.◌∷◌ c rest

-- `s.chars().any(p)`
unfoldable pub any_char : (ℕ → Bool) → String → Bool
any_char p String.[] = false
any_char p (String.◌∷◌ c s) = p (code c) || any_char p s

-- A prefix that is stripped stood there.
pub strip_prefix-append : (p s r : String) → strip_prefix p s ≡ some r → s ≡ String.◌++◌ p r
unfolding strip_prefix
strip_prefix-append String.[] s r h = let e : s ≡ r = ground arith in e ∙ sym (nil-append r)
strip_prefix-append (String.◌∷◌ d p) String.[] r h = cc
strip_prefix-append (String.◌∷◌ d p) (String.◌∷◌ c s) r h = elim (Bool-cases (code c == code d)) [
  | inr other ↦ absurd (ground arith)
  | inl same ↦
      let e : c ≡ d = Char-path c d ((==_iff (code c) (code d)).0 same) in
      rw (e, cons-append)
        (ap (λ (t : String). String.◌∷◌ d t) (strip_prefix-append p s r (rw same at h)))
]

pub strip_prefix-of_append : (p r : String) → strip_prefix p (String.◌++◌ p r) ≡ some r
unfolding strip_prefix
strip_prefix-of_append String.[] r = rw nil-append refl
strip_prefix-of_append (String.◌∷◌ d p) r =
    rw (cons-append, (==_iff (code d) (code d)).1 refl) (strip_prefix-of_append p r)

cons_fst-some :
    (c : Char) (o : Option (String × String)) (a b : String)
    → cons_fst c o ≡ some (a, b)
    → (a' : String) × (o ≡ some (a', b)) × (a ≡ String.◌∷◌ c a')
cons_fst-some c none a b h = absurd (ground arith)
cons_fst-some c (some (x, y)) a b h = (x, ground arith, ground arith)

-- The parts that `break_at` returns stand around the pattern.
pub break_at-append :
    (p s a b : String) → break_at p s ≡ some (a, b) → s ≡ String.◌++◌ a (String.◌++◌ p b)
unfolding break_at
break_at-append p String.[] a b h = elim (Option-cases (strip_prefix p String.[])) [
  | inl no_match ↦ absurd (ground arith)
  | inr (r, k) ↦
      let ea : a ≡ String.[] = ground arith in
      let eb : r ≡ b = ground arith in
      rw (ea, nil-append, ← eb) (strip_prefix-append p String.[] r k)
]
break_at-append p (String.◌∷◌ c s) a b h = elim (Option-cases (strip_prefix p (String.◌∷◌ c s))) [
  | inl no_match ↦
      let (a', k, e) = cons_fst-some c (break_at p s) a b (rw no_match at h) in
      rw (e, cons-append) (ap (λ (t : String). String.◌∷◌ c t) (break_at-append p s a' b k))
  | inr (r, k) ↦
      let ea : a ≡ String.[] = ground arith in
      let eb : r ≡ b = ground arith in
      rw (ea, nil-append, ← eb) (strip_prefix-append p (String.◌∷◌ c s) r k)
]

-- What stands behind a match is shorter by the match at least.
pub break_at-le :
    (p s a b : String)
    → break_at p s ≡ some (a, b)
    → String.count p + String.count b ≤ String.count s
break_at-le p s a b h =
    let e = ap (λ (t : String). String.count t) (break_at-append p s a b h) in
    omega (arith, length-append a (String.◌++◌ p b), length-append p b)
