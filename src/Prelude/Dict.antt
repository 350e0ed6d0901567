-- ===== src/Prelude/Dict.antt =====
-- `HashMap` and `BTreeMap` with numbers as keys, behind their laws. The order of iteration is the
-- list's; the sources iterate over a map only before they sort.
use Prim.Native.Nat.{ℕ}
use mathlib.Core.Path.{◌≡◌, refl}
use mathlib.Core.Option.{Option, none, some}
use mathlib.Core.List.{List, [], ◌∷◌}
use native.Mathlib.Omega.{arith}
use rust_v.Prelude.Tests.{◌==◌, if◌then◌else◌, Bool-cases}
use rust_v.Prelude.Lists.{All}
use mathlib.Core.Logic.{inl, inr}

module _ {ℓ} {V : Type ℓ} where
  unfoldable pub find_key : ℕ → List (ℕ × V) → Option V
  find_key k [] = none
  find_key k ((j, v) ∷ rest) = if j == k then some v else find_key k rest

  drop_key : ℕ → List (ℕ × V) → List (ℕ × V)
  drop_key k [] = []
  drop_key k ((j, v) ∷ rest) = let kept = drop_key k rest in if j == k then kept else (j, v) ∷ kept

  find_key-drop_key :
      (k j : ℕ) (l : List (ℕ × V))
      → find_key j (drop_key k l) ≡ (if k == j then none else find_key j l)
  unfolding find_key drop_key
  find_key-drop_key k j [] = ground arith
  find_key-drop_key k j ((i, v) ∷ rest) = ground (arith, find_key-drop_key k j rest)

  -- No key is bound twice.
  abbrev IsUnique : List (ℕ × V) → Type ℓ
  IsUnique [] = Unit
  IsUnique ((k, v) ∷ rest) = (find_key k rest ≡ none) × IsUnique rest

  IsUnique-drop_key : (k : ℕ) (l : List (ℕ × V)) → IsUnique l → IsUnique (drop_key k l)
  unfolding drop_key
  IsUnique-drop_key k [] h = tt
  IsUnique-drop_key k ((j, v) ∷ rest) (new, h) =
      let ih = IsUnique-drop_key k rest h in
      elim (Bool-cases (j == k)) [
        | inl same ↦ rw same ih
        | inr other ↦ rw other (ground (arith, find_key-drop_key k j rest), ih)
      ]

  insert-IsUnique :
      (k : ℕ) (v : V) (l : List (ℕ × V)) → IsUnique l → IsUnique ((k, v) ∷ drop_key k l)
  insert-IsUnique k v l h = (ground (arith, find_key-drop_key k k l), IsUnique-drop_key k l h)

  -- What a list finds below a binding of another key, it finds with that binding.
  All-find_key-cons :
      (k : ℕ) (v : V) (l m : List (ℕ × V))
      → find_key k l ≡ none
      → All (λ kv. find_key kv.0 l ≡ some kv.1) m
      → All (λ kv. find_key kv.0 ((k, v) ∷ l) ≡ some kv.1) m
  unfolding find_key
  All-find_key-cons k v l [] new h = tt
  All-find_key-cons k v l ((j, w) ∷ m) new (here, h) =
      (ground arith, All-find_key-cons k v l m new h)

  find_key-All : (l : List (ℕ × V)) → IsUnique l → All (λ kv. find_key kv.0 l ≡ some kv.1) l
  unfolding find_key
  find_key-All [] h = tt
  find_key-All ((k, v) ∷ rest) (new, h) =
      (ground arith, All-find_key-cons k v rest rest new (find_key-All rest h))

pub record Dict {ℓ} (V : Type ℓ) : Type ℓ where
  bindings : List (ℕ × V)
  unique : IsUnique bindings

module _ {ℓ} {V : Type ℓ} where
  pub empty : Dict V
  empty = record { bindings = []; unique = tt }

  pub get : Dict V → ℕ → Option V
  unfolding find_key
  get d k = find_key k d.bindings

  pub insert : Dict V → ℕ → V → Dict V
  unfolding drop_key
  insert d k v = record {
    bindings = (k, v) ∷ drop_key k d.bindings;
    unique = insert-IsUnique k v d.bindings d.unique;
  }

  pub remove : Dict V → ℕ → Dict V
  unfolding drop_key
  remove d k = record {
    bindings = drop_key k d.bindings;
    unique = IsUnique-drop_key k d.bindings d.unique;
  }

  pub keys_values : Dict V → List (ℕ × V)
  keys_values d = d.bindings

  -- Each binding is listed under the key that finds it, and each key that finds one is listed.
  pub find_key-keys_values : (d : Dict V) (k : ℕ) → find_key k (keys_values d) ≡ get d k
  unfolding keys_values get
  find_key-keys_values d k = refl

  pub keys_values-All : (d : Dict V) → All (λ kv. get d kv.0 ≡ some kv.1) (keys_values d)
  unfolding keys_values get
  keys_values-All d = find_key-All d.bindings d.unique

  pub get-empty : (k : ℕ) → get empty k ≡ none
  unfolding get empty
  get-empty k = refl

  pub get-insert :
      (d : Dict V) (k j : ℕ) (v : V) → get (insert d k v) j ≡ (if k == j then some v else get d j)
  unfolding get insert
  get-insert d k j v = unfold find_key drop_key in ground (arith, find_key-drop_key k j d.bindings)

  pub get-remove : (d : Dict V) (k j : ℕ) → get (remove d k) j ≡ (if k == j then none else get d j)
  unfolding get remove
  get-remove d k j = find_key-drop_key k j d.bindings

pub ruleset dict_laws = (get-empty, get-insert, get-remove)
