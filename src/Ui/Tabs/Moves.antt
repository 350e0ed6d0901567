-- ===== src/Ui/Tabs/Moves.antt =====
-- What the keys do to the selection.
use rust_v.Prelude.{
  ℕ, zero, suc, ◌+◌, ◌≤◌, ◌<◌, String, ◌≡◌, ◌≢◌, refl, ap, sym, subst, ◌∙◌, ◌⊎◌, inl, inr, Bool,
  false, none, some, List, [], ◌∷◌, get_elem?, length, ltb, ◌==◌, ==_iff, Bool-cases, Option-cases,
  All, filter, arith, if◌then◌else◌,
}
use rust_v.Prelude.Text.{str_eq, str_eq_refl}
use rust_v.Ui.Tabs.{
  Tab, TabStep, previous, next, first, last, Trigger, position, or_zero, current_of, triggers_from,
  triggers, target, stays, selects, panics, on_move, stored, Key, step_of, on_key_down,
}

position-lt :
    (tabs : List Tab) (value : String) (n : ℕ) → position tabs value ≡ some n → n < length tabs
unfolding position
position-lt [] value n h = absurd (ground arith)
position-lt (tab ∷ tabs) value n h = elim (Option-cases (position tabs value)) [
  | inl e ↦ ground arith
  | inr (k, e) ↦ ground (arith, position-lt tabs value k e)
]

-- The current index is one of the list.
current_of-lt :
    (tab : Tab) (tabs : List Tab) (value : String)
    → current_of (tab ∷ tabs) value < length (tab ∷ tabs)
unfolding current_of
current_of-lt tab tabs value = elim (Option-cases (position (tab ∷ tabs) value)) [
  | inl e ↦ rw e (omega arith)
  | inr (k, e) ↦ rw e (position-lt (tab ∷ tabs) value k e)
]

target-le :
    (step : TabStep) (current last_index : ℕ)
    → current ≤ last_index
    → target step current last_index ≤ last_index
unfolding target
target-le previous current last_index h = omega arith
target-le next current last_index h = ground arith
target-le first current last_index h = omega arith
target-le last current last_index h = omega arith

-- The neighbour of an index on the left, where there is one, and on the right.
IsLeft : ℕ → ℕ → Type 0
IsLeft before after = (after + 1 ≡ before) ⊎ ((before ≡ 0) × (after ≡ 0))

IsRight : ℕ → ℕ → ℕ → Type 0
IsRight end before after =
    ((before < end) × (after ≡ before + 1)) ⊎ ((before ≡ end) × (after ≡ end))

-- Where a key leads among the indices up to `end`.
pub IsMoved : Key → ℕ → ℕ → ℕ → Type 0
IsMoved Key.arrow_left end before after = IsLeft before after
IsMoved Key.arrow_up end before after = IsLeft before after
IsMoved Key.arrow_right end before after = IsRight end before after
IsMoved Key.arrow_down end before after = IsRight end before after
IsMoved Key.home end before after = after ≡ 0
IsMoved Key.end_key end before after = after ≡ end
IsMoved (Key.other name) end before after = after ≡ before

Leads : Key → TabStep → Type 0
Leads key step = (end before : ℕ) → before ≤ end → IsMoved key end before (target step before end)

previous-IsLeft : (end before : ℕ) → before ≤ end → IsLeft before (target previous before end)
unfolding target IsLeft
previous-IsLeft end zero h = inr (refl, omega arith)
previous-IsLeft end (suc n) h = inl (omega arith)

next-IsRight : (end before : ℕ) → before ≤ end → IsRight end before (target next before end)
unfolding target IsRight
next-IsRight end before h = elim (Bool-cases (ltb before end)) [
  | inl e ↦ inl (ground arith, ground arith)
  | inr e ↦ inr (ground arith, ground arith)
]

-- A key is left to the browser, or makes a step to where it leads.
step_of-cases :
    (key : Key)
    → ((step_of key ≡ none) × ((end before : ℕ) → IsMoved key end before before))
      ⊎ ((step : TabStep) × (step_of key ≡ some step) × Leads key step)
unfolding step_of Leads IsMoved
step_of-cases Key.arrow_left = inr (previous, refl, previous-IsLeft)
step_of-cases Key.arrow_up = inr (previous, refl, previous-IsLeft)
step_of-cases Key.arrow_right = inr (next, refl, next-IsRight)
step_of-cases Key.arrow_down = inr (next, refl, next-IsRight)
step_of-cases Key.home = inr (first, refl, λ end before h. unfold target in refl)
step_of-cases Key.end_key = inr (last, refl, λ end before h. unfold target in refl)
step_of-cases (Key.other name) = inl (refl, λ end before. refl)

get_elem?-lt :
    (tabs : List Tab) (n : ℕ) → n < length tabs → (tab : Tab) × (get_elem? tabs n ≡ some tab)
get_elem?-lt [] n h = absurd (omega arith)
get_elem?-lt (tab ∷ tabs) zero h = (tab, refl)
get_elem?-lt (tab ∷ tabs) (suc n) h = get_elem?-lt tabs n (omega arith)

-- No two tabs carry one value.
abbrev pub Distinct : List Tab → Type 0
Distinct [] = Unit
Distinct (tab ∷ tabs) =
    All (λ (other : Tab). str_eq tab.value other.value ≡ false) tabs × Distinct tabs

All-get_elem? :
    (P : Tab → Type 0) (tabs : List Tab) (n : ℕ) (tab : Tab)
    → All P tabs
    → get_elem? tabs n ≡ some tab
    → P tab
All-get_elem? P [] n tab h e = absurd (ground arith)
All-get_elem? P (first_tab ∷ tabs) zero tab h e =
    let same : first_tab ≡ tab = ground arith in subst P same h.0
All-get_elem? P (first_tab ∷ tabs) (suc n) tab h e = All-get_elem? P tabs n tab h.1 e

-- The value of a tab leads back to the tab.
position-get_elem? :
    (tabs : List Tab) (n : ℕ) (tab : Tab)
    → Distinct tabs
    → get_elem? tabs n ≡ some tab
    → position tabs tab.value ≡ some n
unfolding position
position-get_elem? [] n tab d e = absurd (ground arith)
position-get_elem? (first_tab ∷ tabs) zero tab d e =
    let same : first_tab.value ≡ tab.value = ground arith in rw (same, str_eq_refl tab.value) refl
position-get_elem? (first_tab ∷ tabs) (suc n) tab d e =
    let differs =
      All-get_elem? (λ (t : Tab). str_eq first_tab.value t.value ≡ false) tabs n tab d.0 e in
    rw (differs, position-get_elem? tabs n tab d.1 e) refl

module _ (tab : Tab) (tabs : List Tab) (value : String) where
  abbrev current : ℕ
  current = current_of (tab ∷ tabs) value

  on_move-cases :
      (step : TabStep)
      → ((on_move (tab ∷ tabs) value step ≡ stays) × (target step current (length tabs) ≡ current))
        ⊎ ((aim : Tab) × (on_move (tab ∷ tabs) value step ≡ selects aim.value)
            × (get_elem? (tab ∷ tabs) (target step current (length tabs)) ≡ some aim))
  unfolding on_move
  on_move-cases step =
      let lt = current_of-lt tab tabs value in
      let le = target-le step current (length tabs) (omega arith) in
      elim (Bool-cases (target step current (length tabs) == current)) [
        | inl h ↦ inl (rw h refl, (==_iff _ _).0 h)
        | inr h ↦
            let (aim, e) =
              get_elem?-lt (tab ∷ tabs) (target step current (length tabs)) (omega arith) in
            inr (aim, rw (h, e) refl, e)
      ]

  -- On a list of tabs with different values a step never indexes out of bounds, and when the caller
  -- has stored what it selects, the current tab is the target.
  on_move-target :
      (step : TabStep)
      → Distinct (tab ∷ tabs)
      → (on_move (tab ∷ tabs) value step ≢ panics)
        × (current_of (tab ∷ tabs) (stored value (on_move (tab ∷ tabs) value step))
            ≡ target step current (length tabs))
  on_move-target step d = elim (on_move-cases step) [
    | inl (e, same) ↦ (λ p. absurd (ground arith), rw e (sym same))
    | inr (aim, e, at_aim) ↦ (
      λ p. absurd (ground arith),
      rw e (
          unfold current_of in
          ap or_zero
            (position-get_elem? (tab ∷ tabs) (target step current (length tabs)) aim d at_aim)),
    )
  ]

  -- On a list of tabs with different values each key is safe, and does what the pattern for tabs asks of
  -- it: no key indexes out of bounds, and when the caller has stored what the key selects, the current
  -- tab is, behind an arrow left or up, the one before, or again the first of all; behind an arrow
  -- right or down, the one after, or again the last of all; behind Home the first, behind End the last;
  -- and behind any other key, as it was.
  pub on_key_down-IsMoved :
      (key : Key)
      → Distinct (tab ∷ tabs)
      → (on_key_down (tab ∷ tabs) value key ≢ panics)
        × IsMoved key
            (length tabs)
            (current_of (tab ∷ tabs) value)
            (current_of (tab ∷ tabs) (stored value (on_key_down (tab ∷ tabs) value key)))
  unfolding on_key_down Leads
  on_key_down-IsMoved key d = elim (step_of-cases key) [
    | inl (e, kept) ↦ rw e (λ p. absurd (ground arith), kept _ _)
    | inr (step, e, moved) ↦
        let (safe, at) = on_move-target step d in
        rw e (safe, rw at (moved _ _ (omega (arith, current_of-lt tab tabs value))))
  ]

-- The keys pressed one by one, the caller storing what each selects.
abbrev pub after : List Tab → String → List Key → String
after tabs value [] = value
after tabs value (key ∷ keys) = after tabs (stored value (on_key_down tabs value key)) keys

abbrev rights : ℕ → List Key
rights zero = []
rights (suc n) = Key.arrow_right ∷ rights n

target-next :
    (current last_index : ℕ) → current < last_index → target next current last_index ≡ current + 1
unfolding target
target-next current last_index h = ground arith

module _ (tab : Tab) (tabs : List Tab) (d : Distinct (tab ∷ tabs)) where
  on_key-after :
      (n : ℕ) (value : String)
      → current_of (tab ∷ tabs) (after (tab ∷ tabs) value (rights (suc n)))
        ≡ current_of
            (tab ∷ tabs)
            (after (tab ∷ tabs) (stored value (on_move (tab ∷ tabs) value next)) (rights n))
  unfolding on_key_down
  on_key-after n value = refl

  home-after :
      (n : ℕ) (value : String)
      → current_of (tab ∷ tabs) (after (tab ∷ tabs) value (Key.home ∷ rights n))
        ≡ current_of
            (tab ∷ tabs)
            (after (tab ∷ tabs) (stored value (on_move (tab ∷ tabs) value first)) (rights n))
  unfolding on_key_down
  home-after n value = refl

  after-rights :
      (n : ℕ) (value : String)
      → current_of (tab ∷ tabs) value + n < length (tab ∷ tabs)
      → current_of (tab ∷ tabs) (after (tab ∷ tabs) value (rights n))
        ≡ current_of (tab ∷ tabs) value + n
  after-rights zero value h = omega arith
  after-rights (suc n) value h =
      let moved = (on_move-target tab tabs value next d).1 in
      let value' = stored value (on_move (tab ∷ tabs) value next) in
      let one : current_of (tab ∷ tabs) value' ≡ current_of (tab ∷ tabs) value + 1 =
        moved ∙ target-next (current_of (tab ∷ tabs) value) (length tabs) (omega arith) in
      on_key-after n value ∙ after-rights n value' (omega (arith, one)) ∙ omega (arith, one)

  -- Whatever tab is the current one, there are keys that lead to any other.
  every_tab_reached :
      (n : ℕ) (value : String)
      → n < length (tab ∷ tabs)
      → (keys : List Key) × (current_of (tab ∷ tabs) (after (tab ∷ tabs) value keys) ≡ n)
  every_tab_reached n value h =
      let value' = stored value (on_move (tab ∷ tabs) value first) in
      let start : current_of (tab ∷ tabs) value' ≡ 0 =
        (on_move-target tab tabs value first d).1 ∙ unfold target in refl in
      (
        Key.home ∷ rights n,
        home-after n value ∙ after-rights n value' (omega (arith, start)) ∙ omega (arith, start),
      )

-- The triggers that the tab key can stop at.
abbrev pub is_stop : Trigger → Bool
is_stop t = str_eq t.tabindex "0"

stops-of :
    (controls : String) (current index : ℕ) (tabs : List Tab)
    → length (filter is_stop (triggers_from controls current index tabs))
      ≡ (if ltb current index then 0 else if ltb current (index + length tabs) then 1 else 0)
unfolding triggers_from
stops-of controls current index [] = ground arith
stops-of controls current index (tab ∷ tabs) = elim (Bool-cases (index == current)) [
  | inl h ↦ rw h (ground (arith, stops-of controls current (suc index) tabs))
  | inr h ↦ rw h (ground (arith, stops-of controls current (suc index) tabs))
]

-- Of the tabs that are rendered exactly one can be stopped at with the tab key, also when the
-- value is none of theirs.
triggers_one_stop :
    (tab : Tab) (tabs : List Tab) (value controls : String)
    → length (filter is_stop (triggers (tab ∷ tabs) value controls)) ≡ 1
unfolding triggers
triggers_one_stop tab tabs value controls = ground (
  arith,
  stops-of controls (current_of (tab ∷ tabs) value) 0 (tab ∷ tabs),
  current_of-lt tab tabs value,
)
