-- ===== src/Prelude/Sorted.antt =====
-- `BTreeSet`, and `sort` followed by `dedup`: the ascending list of the elements.
use mathlib.Core.Path.{◌≡◌, refl, ap, ◌∙◌}
use mathlib.Core.Logic.{◌↔◌, ◌⊎◌, inl, inr}
use mathlib.Core.Bool.{Bool, true, false, ◌||◌}
use mathlib.Core.List.{List, [], ◌∷◌, Memᴰ}
use mathlib.Core.List.Memᴰ
use native.Mathlib.Omega.{arith}
use rust_v.Prelude.Tests.{if◌then◌else◌, Bool-cases}
use rust_v.Prelude.Lists.{All, any}

-- What `Ord` promises of `<`.
pub record IsStrictOrder {ℓ} {A : Type ℓ} (lt : A → A → Bool) : Type ℓ where
  pub irrefl : (a : A) → lt a a ≡ false
  pub trans : (a b c : A) → lt a b ≡ true → lt b c ≡ true → lt a c ≡ true
  pub connected : (a b : A) → lt a b ≡ false → lt b a ≡ false → a ≡ b

module _ {ℓ} {A : Type ℓ} (lt : A → A → Bool) where
  abbrev pub Ascending : List A → Type ℓ
  Ascending [] = Unit
  Ascending (x ∷ xs) = All (λ (y : A). lt x y ≡ true) xs × Ascending xs

  unfoldable pub insert : A → List A → List A
  insert x [] = x ∷ []
  insert x (y ∷ ys) =
      let later = insert x ys in if lt x y then x ∷ y ∷ ys else if lt y x then y ∷ later else y ∷ ys

  unfoldable pub sorted_set : List A → List A
  unfolding insert
  sorted_set [] = []
  sorted_set (x ∷ xs) = insert x (sorted_set xs)

  pub mem-insert : (x y : A) (ys : List A) → Memᴰ y (insert x ys) → (y ≡ x) ⊎ Memᴰ y ys
  unfolding insert
  mem-insert x y [] m = Memᴰ.cases_cons m
  mem-insert x y (z ∷ zs) m = elim (Bool-cases (lt x z)) [
    | inl first ↦ Memᴰ.cases_cons (rw first at m)
    | inr h ↦ elim (Bool-cases (lt z x)) [
      | inl later ↦ elim (Memᴰ.cases_cons (rw (h, later) at m)) [
        | inl e ↦ inr (Memᴰ.head e)
        | inr n ↦ elim (mem-insert x y zs n) [ inl e ↦ inl e | inr k ↦ inr (Memᴰ.tail k) ]
      ]
      | inr same ↦ inr (rw (h, same) at m)
    ]
  ]

module _ {ℓ κ} {A : Type ℓ} (lt : A → A → Bool) (P : A → Type κ) where
  All-insert : (x : A) (ys : List A) → P x → All P ys → All P (insert lt x ys)
  unfolding insert
  All-insert x [] p h = (p, tt)
  All-insert x (z ∷ zs) p (h, hs) = elim (Bool-cases (lt x z)) [
    | inl first ↦ rw first (p, (h, hs))
    | inr k ↦ elim (Bool-cases (lt z x)) [
      | inl later ↦ rw (k, later) (h, All-insert x zs p hs)
      | inr same ↦ rw (k, same) (h, hs)
    ]
  ]

  -- What holds of every element of a list holds of every element of its set.
  pub All-sorted_set : (xs : List A) → All P xs → All P (sorted_set lt xs)
  unfolding sorted_set
  All-sorted_set [] h = tt
  All-sorted_set (x ∷ xs) (h, hs) = All-insert x (sorted_set lt xs) h (All-sorted_set xs hs)

module _ {ℓ} {A : Type ℓ} (lt : A → A → Bool) (order : IsStrictOrder lt) where
  pub All-trans :
      (x z : A) (zs : List A)
      → lt x z ≡ true
      → All (λ (y : A). lt z y ≡ true) zs
      → All (λ (y : A). lt x y ≡ true) zs
  All-trans x z [] h k = tt
  All-trans x z (w ∷ ws) h (k, ks) = (order.trans x z w h k, All-trans x z ws h ks)

  pub insert-Ascending : (x : A) (ys : List A) → Ascending lt ys → Ascending lt (insert lt x ys)
  unfolding insert
  insert-Ascending x [] h = (tt, tt)
  insert-Ascending x (z ∷ zs) (h, hs) = elim (Bool-cases (lt x z)) [
    | inl first ↦ rw first ((first, All-trans x z zs first h), (h, hs))
    | inr k ↦ elim (Bool-cases (lt z x)) [
      | inl later ↦
          rw (k, later)
            (All-insert lt (λ (y : A). lt z y ≡ true) x zs later h, insert-Ascending x zs hs)
      | inr same ↦ rw (k, same) (h, hs)
    ]
  ]

  pub mem-of_insert : (x y : A) (ys : List A) → (y ≡ x) ⊎ Memᴰ y ys → Memᴰ y (insert lt x ys)
  unfolding insert
  mem-of_insert x y [] (inl e) = Memᴰ.head e
  mem-of_insert x y [] (inr m) = absurd (Memᴰ.not-nil m)
  mem-of_insert x y (z ∷ zs) h = elim (Bool-cases (lt x z)) [
    | inl first ↦ rw first (elim h [ inl e ↦ Memᴰ.head e | inr m ↦ Memᴰ.tail m ])
    | inr k ↦ elim (Bool-cases (lt z x)) [
      | inl later ↦
          rw (k, later)
            (elim h [
              | inl e ↦ Memᴰ.tail (mem-of_insert x y zs (inl e))
              | inr m ↦ elim (Memᴰ.cases_cons m) [
                | inl e ↦ Memᴰ.head e
                | inr n ↦ Memᴰ.tail (mem-of_insert x y zs (inr n))
              ]
            ])
      | inr same ↦
          rw (k, same) (elim h [ inl e ↦ Memᴰ.head (e ∙ order.connected x z k same) | inr m ↦ m ])
    ]
  ]

  pub sorted_set-Ascending : (xs : List A) → Ascending lt (sorted_set lt xs)
  unfolding sorted_set
  sorted_set-Ascending [] = tt
  sorted_set-Ascending (x ∷ xs) = insert-Ascending x (sorted_set lt xs) (sorted_set-Ascending xs)

  pub mem-sorted_set : (y : A) (xs : List A) → Memᴰ y (sorted_set lt xs) ↔ Memᴰ y xs
  unfolding sorted_set
  mem-sorted_set y [] = (λ m. m, λ m. m)
  mem-sorted_set y (x ∷ xs) = (
    λ m. elim (mem-insert lt x y (sorted_set lt xs) m) [
      | inl e ↦ Memᴰ.head e
      | inr k ↦ Memᴰ.tail ((mem-sorted_set y xs).0 k)
    ],
    λ m.
        mem-of_insert x y (sorted_set lt xs)
          (elim (Memᴰ.cases_cons m) [ inl e ↦ inl e | inr k ↦ inr ((mem-sorted_set y xs).1 k) ]),
  )

  insert-first : (x : A) (ys : List A) → All (λ (y : A). lt x y ≡ true) ys → insert lt x ys ≡ x ∷ ys
  unfolding insert
  insert-first x [] h = refl
  insert-first x (y ∷ ys) (h, hs) = rw h refl

  pub sorted_set-of_Ascending : (xs : List A) → Ascending lt xs → sorted_set lt xs ≡ xs
  unfolding sorted_set
  sorted_set-of_Ascending [] h = refl
  sorted_set-of_Ascending (x ∷ xs) (h, hs) =
      ap (λ (l : List A). insert lt x l) (sorted_set-of_Ascending xs hs) ∙ insert-first x xs h

  any-insert : (p : A → Bool) (x : A) (ys : List A) → any p (insert lt x ys) ≡ (p x || any p ys)
  unfolding insert
  any-insert p x [] = refl
  any-insert p x (z ∷ zs) = elim (Bool-cases (lt x z)) [
    | inl first ↦ rw first refl
    | inr k ↦ elim (Bool-cases (lt z x)) [
      | inl later ↦ rw (k, later, any-insert p x zs) (ground arith)
      | inr same ↦ rw (k, same, order.connected x z k same) (ground arith)
    ]
  ]

  pub any-sorted_set : (p : A → Bool) (xs : List A) → any p (sorted_set lt xs) ≡ any p xs
  unfolding sorted_set
  any-sorted_set p [] = refl
  any-sorted_set p (x ∷ xs) =
      any-insert p x (sorted_set lt xs) ∙ ap (λ (b : Bool). p x || b) (any-sorted_set p xs)
