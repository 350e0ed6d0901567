-- ===== src/Prelude/Text/Parts.antt =====
-- Splitting at a separator.
use Prim.Native.Char.{Char, code}
use Prim.Native.Nat.{ℕ}
use Prim.Native.String
use Prim.Native.String.{String}
use mathlib.Core.Path.{◌≡◌}
use mathlib.Core.Bool.{false}
use mathlib.Core.Option.{some}
use native.Mathlib.Omega.{arith}
use text.Mathlib.TextLemmas.{nil-append, cons-append}
use rust_v.Prelude.Text.{contains_char, split_once}

-- The first separator is the one behind a prefix that has none.
pub split_once-append :
    (k : ℕ) (c : Char) (p s : String)
    → code c ≡ k
    → contains_char k p ≡ false
    → split_once k (String.◌++◌ p (String.◌∷◌ c s)) ≡ some (p, s)
unfolding split_once contains_char
split_once-append k c String.[] s e h = rw nil-append (ground arith)
split_once-append k c (String.◌∷◌ d p) s e h =
    rw cons-append (ground (arith, split_once-append k c p s e))
