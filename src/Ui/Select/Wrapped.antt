-- ===== src/Ui/Select/Wrapped.antt =====
-- The arrows, and the option that is highlighted.
use rust_v.Prelude.{
  ℕ, zero, suc, ◌+◌, ◌-◌, ◌%◌, ◌<◌, String, ◌≡◌, refl, ap, sym, ◌∙◌, ◌⊎◌, inl, inr, Bool, true,
  false, not, Option, none, some, List, [], ◌∷◌, length, ltb, ◌==◌, Bool-cases, arith,
  if◌then◌else◌,
}
use rust_v.Prelude.Members.{List-cases}
use rust_v.Ui.Tabs.{min}
use rust_v.Ui.Select.{
  Choice, Props, Picker, command_step, visible, current, Shown, shown_from, shown,
  active_descendant,
}

-- The neighbour in a ring of `suc last` options.
abbrev pub neighbour : ℕ → ℕ → Bool → ℕ
neighbour at last true = if at == 0 then last else at - 1
neighbour at last false = if at == last then 0 else at + 1

mod-self_add : (a n : ℕ) → a < suc n → (a + suc n) % suc n ≡ a
mod-self_add a n h = grind arith

mod_small : (a n : ℕ) → a < suc n → a % suc n ≡ a
mod_small a n h = grind arith

mod_self : (n : ℕ) → suc n % suc n ≡ 0
mod_self n = grind arith

min-of_lt : (at last : ℕ) → at < suc last → min at last ≡ at
min-of_lt at last h = ground arith

back-mod : (at last : ℕ) → at < suc last → (at + suc last - 1) % suc last ≡ neighbour at last true
back-mod zero last h = ap (λ k. k % suc last) (omega arith) ∙ mod_small last last (omega arith)
back-mod (suc at) last h =
    ap (λ k. k % suc last) (omega arith) ∙ mod-self_add at last (omega arith) ∙ ground arith

on-mod : (at last : ℕ) → at < suc last → (at + 1) % suc last ≡ neighbour at last false
on-mod at last h = elim (Bool-cases (at == last)) [
  | inl e ↦
      let same : at + 1 ≡ suc last = ground arith in
      rw e (ap (λ k. k % suc last) same ∙ mod_self last)
  | inr e ↦ rw e (mod_small (at + 1) last (ground arith))
]

step-neighbour :
    (at last : ℕ) (previous : Bool)
    → at < suc last
    → command_step at (suc last) previous ≡ some (neighbour at last previous)
unfolding command_step
step-neighbour at last true h =
    ap (λ k. some ((k + suc last - 1) % suc last)) (min-of_lt at last h)
    ∙ ap (λ k. some k) (back-mod at last h)
step-neighbour at last false h =
    ap (λ k. some ((k + 1) % suc last)) (min-of_lt at last h) ∙ ap (λ k. some k) (on-mod at last h)

neighbour-lt :
    (at last : ℕ) (previous : Bool) → at < suc last → neighbour at last previous < suc last
neighbour-lt at last true h = ground arith
neighbour-lt at last false h = ground arith

neighbour_back :
    (at last : ℕ) (previous : Bool)
    → at < suc last
    → neighbour (neighbour at last previous) last (not previous) ≡ at
neighbour_back at last true h = ground arith
neighbour_back at last false h = ground arith

-- Each arrow leads from an option to one of the options, and the other arrow leads back.
command_step_back :
    (at count : ℕ) (previous : Bool)
    → at < count
    → (n : ℕ) × (command_step at count previous ≡ some n)
      × (n < count)
      × (command_step n count (not previous) ≡ some at)
command_step_back at zero previous h = absurd (omega arith)
command_step_back at (suc last) previous h =
    let n = neighbour at last previous in
    let lt = neighbour-lt at last previous h in
    (
      n,
      step-neighbour at last previous h,
      lt,
      step-neighbour n last (not previous) lt
          ∙ ap (λ (k : ℕ). some k) (neighbour_back at last previous h),
    )

abbrev pub highlights : List Shown → List ℕ
highlights [] = []
highlights (o ∷ os) = if o.highlighted then o.id_index ∷ highlights os else highlights os

highlights-of :
    (value : String) (at index : ℕ) (choices : List Choice)
    → highlights (shown_from value at index choices)
      ≡ (if ltb at index then [] else if ltb at (index + length choices) then at ∷ [] else [])
unfolding shown_from
highlights-of value at index [] = ground arith
highlights-of value at index (choice ∷ choices) = elim (Bool-cases (index == at)) [
  | inl h ↦ rw h (ground (arith, highlights-of value at (suc index) choices))
  | inr h ↦ rw h (ground (arith, highlights-of value at (suc index) choices))
]

abbrev pub listed : Option ℕ → List ℕ
listed none = []
listed (some n) = n ∷ []

module _ (to_lowercase : String → String) (p : Props) (s : Picker) where
  current-lt :
      0 < length (visible to_lowercase p s)
      → current to_lowercase p s < length (visible to_lowercase p s)
  unfolding current
  current-lt h = ground arith

  active_descendant-some :
      0 < length (visible to_lowercase p s)
      → active_descendant to_lowercase p s ≡ some (current to_lowercase p s)
  unfolding active_descendant
  active_descendant-some h = ground arith

  highlights-some :
      0 < length (visible to_lowercase p s)
      → highlights (shown to_lowercase p s) ≡ current to_lowercase p s ∷ []
  unfolding shown
  highlights-some h = ground (
    arith,
    highlights-of p.value (current to_lowercase p s) 0 (visible to_lowercase p s),
    current-lt h,
  )

-- Exactly the option that the search field names as active is highlighted; and it names one of the
-- visible options, where there is any.
highlights-active_descendant :
    (to_lowercase : String → String) (p : Props) (s : Picker)
    → (highlights (shown to_lowercase p s) ≡ listed (active_descendant to_lowercase p s))
      × ((visible to_lowercase p s ≡ [])
          ⊎ ((n : ℕ) × (active_descendant to_lowercase p s ≡ some n)
              × (n < length (visible to_lowercase p s))))
highlights-active_descendant to_lowercase p s = elim (List-cases (visible to_lowercase p s)) [
  | inl e ↦ (unfold shown active_descendant in rw e (unfold shown_from in refl), inl e)
  | inr (choice, choices, e) ↦
      let many : 0 < length (visible to_lowercase p s) = rw e (omega arith) in
      (
        highlights-some to_lowercase p s many
            ∙ ap listed (sym (active_descendant-some to_lowercase p s many)),
        inr (
          current to_lowercase p s,
          active_descendant-some to_lowercase p s many,
          current-lt to_lowercase p s many,
        ),
      )
]
