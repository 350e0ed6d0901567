-- ===== src/Prelude/Text/Unsigned.antt =====
-- Rust's `str::parse` for an unsigned type whose greatest value is `limit`.
use Prim.Native.Char.{code}
use Prim.Native.Nat.{ℕ, ◌+◌, ◌-◌, ◌*◌, ◌≤◌}
use Prim.Native.String.{String}
use mathlib.Core.Path.{◌≡◌}
use mathlib.Core.Bool.{Bool, ◌&&◌}
use mathlib.Core.Logic.{inl, inr}
use native.Mathlib.Omega.{arith}
use rust_v.Prelude.Tests.{leb, ◌==◌, if◌then◌else◌, Bool-cases}
use rust_v.Prelude.Lists.{Result, ok, err}

-- `IntErrorKind`, as far as an unsigned type has it.
pub data IntError : Type 0 where
  empty invalid_digit pos_overflow : IntError

-- `ParseIntError`'s `Display`
abbrev pub reason_of : IntError → String
reason_of empty = "cannot parse integer from empty string"
reason_of invalid_digit = "invalid digit found in string"
reason_of pos_overflow = "number too large to fit in target type"

abbrev is_decimal : ℕ → Bool
is_decimal c = leb b'0' c && leb c b'9'

-- A digit is looked at before the product is.
unfoldable pub digits : ℕ → ℕ → String → Result IntError ℕ
digits limit value String.[] = ok value
digits limit value (String.◌∷◌ c s) =
    let next = value * 10 + (code c - b'0') in
    let rest = digits limit next s in
    if is_decimal (code c)
    then (if leb next limit then rest else err pos_overflow)
    else err invalid_digit

-- One sign may stand before the digits, not alone.
unfoldable pub parse_unsigned : ℕ → String → Result IntError ℕ
unfolding digits
parse_unsigned limit String.[] = err empty
parse_unsigned limit (String.◌∷◌ c String.[]) = digits limit 0 (String.◌∷◌ c String.[])
parse_unsigned limit (String.◌∷◌ c (String.◌∷◌ d s)) =
    if code c == b'+'
    then digits limit 0 (String.◌∷◌ d s)
    else digits limit 0 (String.◌∷◌ c (String.◌∷◌ d s))

digits-le :
    (limit value n : ℕ) (s : String) → value ≤ limit → digits limit value s ≡ ok n → n ≤ limit
unfolding digits
digits-le limit value n String.[] h k = ground arith
digits-le limit value n (String.◌∷◌ c s) h k = elim (Bool-cases (is_decimal (code c))) [
  | inr other ↦ absurd (ground arith)
  | inl digit ↦ elim (Bool-cases (leb (value * 10 + (code c - b'0')) limit)) [
    | inr over ↦ absurd (ground arith)
    | inl fits ↦
        digits-le limit (value * 10 + (code c - b'0')) n s (ground arith) (rw (digit, fits) at k)
  ]
]

-- What is parsed fits the type.
pub parse_unsigned-le : (limit n : ℕ) (s : String) → parse_unsigned limit s ≡ ok n → n ≤ limit
unfolding parse_unsigned
parse_unsigned-le limit n String.[] h = absurd (ground arith)
parse_unsigned-le limit n (String.◌∷◌ c String.[]) h =
    digits-le limit 0 n (String.◌∷◌ c String.[]) (omega arith) h
parse_unsigned-le limit n (String.◌∷◌ c (String.◌∷◌ d s)) h = elim (Bool-cases (code c == b'+')) [
  | inl sign ↦ digits-le limit 0 n (String.◌∷◌ d s) (omega arith) (rw sign at h)
  | inr plain ↦ digits-le limit 0 n (String.◌∷◌ c (String.◌∷◌ d s)) (omega arith) (rw plain at h)
]
