-- ===== src/Prelude/Text.antt =====
-- What the sources use of Rust's `str`: `trim`, `is_empty`, `chars().count()`, `split_once`,
-- `split`, `contains` and `starts_with`, over the native texts, whose elements are characters.
pub mod Trim
pub mod Parts
pub mod Search
pub mod Order
pub mod Lowercase
pub mod Entries
pub mod Unsigned
pub mod Lines
use Prim.Native.Char.{Char, code}
use Prim.Native.Nat.{ℕ}
use Prim.Native.String.{String}
use mathlib.Core.Path.{◌≡◌}
use mathlib.Core.Bool.{Bool, true, false, ◌&&◌, ◌||◌}
use mathlib.Core.Option.{Option, none, some}
use mathlib.Core.List.{List, [], ◌∷◌}
use text.Mathlib.Text
use text.Mathlib.TextEquality
use text.Mathlib.TextPositions
use rust_v.Prelude.Tests.{leb, ◌==◌, if◌then◌else◌}

-- `==` on texts.
abbrev pub str_eq : String → String → Bool
str_eq s t = Text.◌==◌ s t

pub str_eq_iff : (s t : String) → (str_eq s t ≡ true → s ≡ t) × (s ≡ t → str_eq s t ≡ true)
str_eq_iff s t = (λ h. (TextEquality.eq_iff s t).0 h, λ h. (TextEquality.eq_iff s t).1 h)

pub str_eq_refl : (s : String) → str_eq s s ≡ true
str_eq_refl s = TextPositions.eq_refl s

abbrev between : ℕ → ℕ → ℕ → Bool
between lo hi c = leb lo c && leb c hi

-- `char::is_whitespace`: the code points with the Unicode property White_Space.
unfoldable pub is_whitespace : ℕ → Bool
is_whitespace c =
    between 9 13 c
    || c == 32
    || c == 0x85
    || c == 0xa0
    || c == 0x1680
    || between 0x2000 0x200a c
    || c == 0x2028
    || c == 0x2029
    || c == 0x202f
    || c == 0x205f
    || c == 0x3000

abbrev pub is_empty : String → Bool
is_empty String.[] = true
is_empty (String.◌∷◌ c s) = false

unfoldable pub trim_start : String → String
unfolding is_whitespace
trim_start String.[] = String.[]
trim_start (String.◌∷◌ c s) =
    let rest = trim_start s in if is_whitespace (code c) then rest else String.◌∷◌ c s

-- A white character goes when all behind it goes.
abbrev trim_end_step : Char → String → String
trim_end_step c r = if is_whitespace (code c) && is_empty r then String.[] else String.◌∷◌ c r

unfoldable pub trim_end : String → String
unfolding is_whitespace
trim_end String.[] = String.[]
trim_end (String.◌∷◌ c s) = trim_end_step c (trim_end s)

unfoldable pub trim : String → String
unfolding trim_start trim_end
trim s = trim_end (trim_start s)

-- `s.contains(c)` for a character.
unfoldable pub contains_char : ℕ → String → Bool
contains_char k String.[] = false
contains_char k (String.◌∷◌ c s) = code c == k || contains_char k s

abbrev pub cons_fst : Char → Option (String × String) → Option (String × String)
cons_fst c none = none
cons_fst c (some (a, b)) = some (String.◌∷◌ c a, b)

-- `s.split_once(c)`: the parts around the first occurrence.
unfoldable pub split_once : ℕ → String → Option (String × String)
split_once k String.[] = none
split_once k (String.◌∷◌ c s) =
    let rest = cons_fst c (split_once k s) in if code c == k then some (String.[], s) else rest

abbrev cons_head : Char → List String → List String
cons_head c [] = String.◌∷◌ c String.[] ∷ []
cons_head c (p ∷ ps) = String.◌∷◌ c p ∷ ps

-- `s.split(c)`: always at least one part.
unfoldable pub split : ℕ → String → List String
split k String.[] = String.[] ∷ []
split k (String.◌∷◌ c s) =
    let parts = split k s in if code c == k then String.[] ∷ parts else cons_head c parts
