-- ===== src/Prelude/Members.antt =====
-- The members of a list that pass a test, and how many they are.
use Prim.Native.Nat.{◌≤◌, ◌<◌}
use mathlib.Core.Path.{◌≡◌, refl, sym, ap, ◌∙◌}
use mathlib.Core.Logic.{◌⊎◌, inl, inr}
use mathlib.Core.Bool.{Bool, true, false}
use mathlib.Core.List.{List, [], ◌∷◌, Memᴰ}
use mathlib.Core.List.Memᴰ
use native.Mathlib.Omega.{arith}
use rust_v.Prelude.Tests.{Bool-cases}
use rust_v.Prelude.Lists.{length, any, filter}

module _ {ℓ} {A : Type ℓ} (p : A → Bool) where
  pub mem-filter : (x : A) (xs : List A) → Memᴰ x (filter p xs) → Memᴰ x xs × (p x ≡ true)
  mem-filter x [] m = absurd (Memᴰ.not-nil m)
  mem-filter x (y ∷ ys) m = elim (Bool-cases (p y)) [
    | inr h ↦ let (k, e) = mem-filter x ys (rw h at m) in (Memᴰ.tail k, e)
    | inl h ↦ elim (Memᴰ.cases_cons (rw h at m)) [
      | inl e ↦ (Memᴰ.head e, ap (λ (z : A). p z) e ∙ h)
      | inr n ↦ let (k, e) = mem-filter x ys n in (Memᴰ.tail k, e)
    ]
  ]

  pub mem-of_filter : (x : A) (xs : List A) → Memᴰ x xs → p x ≡ true → Memᴰ x (filter p xs)
  mem-of_filter x [] m e = m
  mem-of_filter x (y ∷ ys) m e = elim (Memᴰ.cases_cons m) [
    | inl same ↦ rw (sym (ap (λ (z : A). p z) same) ∙ e) (Memᴰ.head same)
    | inr later ↦ elim (Bool-cases (p y)) [
      | inl h ↦ rw h (Memᴰ.tail (mem-of_filter x ys later e))
      | inr h ↦ rw h (mem-of_filter x ys later e)
    ]
  ]

  pub any-of_mem : (x : A) (xs : List A) → Memᴰ x xs → p x ≡ true → any p xs ≡ true
  any-of_mem x [] m e = absurd (Memᴰ.not-nil m)
  any-of_mem x (y ∷ ys) m e = elim (Memᴰ.cases_cons m) [
    | inl same ↦ rw (sym (ap (λ (z : A). p z) same) ∙ e) refl
    | inr later ↦ let h = any-of_mem x ys later e in ground arith
  ]

  pub length-filter : (xs : List A) → length (filter p xs) ≤ length xs
  length-filter [] = omega arith
  length-filter (x ∷ xs) = let ih = length-filter xs in ground arith

  pub mem-of_any : (xs : List A) → any p xs ≡ true → (x : A) × Memᴰ x xs × (p x ≡ true)
  mem-of_any [] h = absurd (ground arith)
  mem-of_any (y ∷ ys) h = elim (Bool-cases (p y)) [
    | inl k ↦ (y, Memᴰ.head refl, k)
    | inr k ↦ let (x, m, e) = mem-of_any ys (rw k at h) in (x, Memᴰ.tail m, e)
  ]

module _ {ℓ} {A : Type ℓ} (p q : A → Bool) (weaker : (x : A) → p x ≡ true → q x ≡ true) where
  length-filter_le : (xs : List A) → length (filter p xs) ≤ length (filter q xs)
  length-filter_le [] = omega arith
  length-filter_le (x ∷ xs) =
      let ih = length-filter_le xs in
      elim (Bool-cases (p x)) [
        | inl h ↦ rw (h, weaker x h) (omega arith)
        | inr h ↦ elim (Bool-cases (q x)) [ inl k ↦ rw (h, k) (omega arith) | inr k ↦ rw (h, k) ih ]
      ]

  pub length-filter_lt :
      (x : A) (xs : List A)
      → Memᴰ x xs
      → p x ≡ false
      → q x ≡ true
      → length (filter p xs) < length (filter q xs)
  length-filter_lt x [] m e f = absurd (Memᴰ.not-nil m)
  length-filter_lt x (y ∷ ys) m e f = elim (Memᴰ.cases_cons m) [
    | inl same ↦
        let le = length-filter_le ys in
        rw (sym (ap (λ (z : A). p z) same) ∙ e, sym (ap (λ (z : A). q z) same) ∙ f) (omega arith)
    | inr later ↦
        let lt = length-filter_lt x ys later e f in
        elim (Bool-cases (p y)) [
          | inl h ↦ rw (h, weaker y h) (omega arith)
          | inr h ↦ elim (Bool-cases (q y)) [
            | inl k ↦ rw (h, k) (omega arith)
            | inr k ↦ rw (h, k) lt
          ]
        ]
  ]

pub List-cases {ℓ} :
    {A : Type ℓ} (xs : List A) → (xs ≡ []) ⊎ ((y : A) × (ys : List A) × (xs ≡ y ∷ ys))
List-cases [] = inl refl
List-cases (x ∷ xs) = inr (x, xs, refl)
