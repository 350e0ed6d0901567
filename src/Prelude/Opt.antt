-- ===== src/Prelude/Opt.antt =====
-- The `?` operator on `Option`, and the last value that is set in a list of options.
use mathlib.Core.Path.{◌≡◌}
use mathlib.Core.Option.{Option, none, some}
use mathlib.Core.List.{List, [], ◌∷◌}
use native.Mathlib.Omega.{arith}

infixl 5 ◌>>=◌
abbrev pub ◌>>=◌ {ℓ κ} : {A : Type ℓ} {B : Type κ} → Option A → (A → Option B) → Option B
none >>= f = none
some a >>= f = f a

module _ {ℓ} {A : Type ℓ} where
  abbrev pub unwrap_or : Option A → A → A
  unwrap_or none d = d
  unwrap_or (some a) d = a

  abbrev or_else : Option A → Option A → Option A
  or_else none o = o
  or_else (some s) o = some s

  abbrev pub last_some : List (Option A) → Option A
  last_some [] = none
  last_some (o ∷ os) = or_else (last_some os) o

  -- Setting the values from left to right leaves the last one that is set.
  pub unwrap_or-last_some :
      (o : Option A) (os : List (Option A)) (d : A)
      → unwrap_or (last_some os) (unwrap_or o d) ≡ unwrap_or (last_some (o ∷ os)) d
  unwrap_or-last_some o os d = ground arith
