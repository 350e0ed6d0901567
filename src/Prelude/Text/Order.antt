-- ===== src/Prelude/Text/Order.antt =====
-- The order of Rust's texts, `Ord for str`: bytewise, which on UTF-8 is the order of the code points.
use Prim.Native.Char.{code}
use Prim.Native.String.{String}
use mathlib.Core.Path.{◌≡◌, refl, ap}
use mathlib.Core.Bool.{Bool, true, false}
use native.Mathlib.Omega.{arith}
use text.Mathlib.TextEquality.{Char-path}
use rust_v.Prelude.Sorted.{IsStrictOrder}
use rust_v.Prelude.Tests.{ltb, if◌then◌else◌}

unfoldable pub text_lt : String → String → Bool
text_lt s String.[] = false
text_lt String.[] (String.◌∷◌ d t) = true
text_lt (String.◌∷◌ c s) (String.◌∷◌ d t) =
    let rest = text_lt s t in
    if ltb (code c) (code d) then true else if ltb (code d) (code c) then false else rest

pub text_lt_irrefl : (s : String) → text_lt s s ≡ false
unfolding text_lt
text_lt_irrefl String.[] = refl
text_lt_irrefl (String.◌∷◌ c s) = ground (arith, text_lt_irrefl s)

pub text_lt_trans : (s t u : String) → text_lt s t ≡ true → text_lt t u ≡ true → text_lt s u ≡ true
unfolding text_lt
text_lt_trans s String.[] u h k = absurd (ground arith)
text_lt_trans s (String.◌∷◌ d t) String.[] h k = absurd (ground arith)
text_lt_trans String.[] (String.◌∷◌ d t) (String.◌∷◌ e u) h k = refl
text_lt_trans (String.◌∷◌ c s) (String.◌∷◌ d t) (String.◌∷◌ e u) h k =
    ground (arith, text_lt_trans s t u)

pub text_lt_connected : (s t : String) → text_lt s t ≡ false → text_lt t s ≡ false → s ≡ t
unfolding text_lt
text_lt_connected String.[] String.[] h k = refl
text_lt_connected String.[] (String.◌∷◌ d t) h k = absurd (ground arith)
text_lt_connected (String.◌∷◌ c s) String.[] h k = absurd (ground arith)
text_lt_connected (String.◌∷◌ c s) (String.◌∷◌ d t) h k =
    let same : code c ≡ code d = ground arith in
    let rest : s ≡ t = ground (arith, text_lt_connected s t) in
    rw (Char-path c d same) (ap (λ (r : String). String.◌∷◌ d r) rest)

pub text_order : IsStrictOrder text_lt
text_order = record {
  irrefl = text_lt_irrefl;
  trans = text_lt_trans;
  connected = text_lt_connected;
}
