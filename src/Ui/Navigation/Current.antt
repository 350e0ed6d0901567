-- ===== src/Ui/Navigation/Current.antt =====
-- Which link is the current page, and which step is the current one.
use rust_v.Prelude.{
  ℕ, zero, suc, ◌+◌, ◌-◌, ◌≤◌, ◌<◌, String, ◌≡◌, refl, sym, ◌∙◌, inl, inr, Bool, true, false,
  Option, none, some, List, [], ◌∷◌, ◌++◌, map, filter, length, All, Bool-cases, arith,
}
use rust_v.Prelude.Text.{str_eq, str_eq_iff}
use rust_v.Ui.Navigation.{
  NavLink, same_key, is_current, Anchor, anchor, header_action, actions, product_header,
  ProcessState, complete, present, upcoming, state_at, process_state, ProcessStep, RailItem,
  rail_from, process_rail,
}

abbrev pub replicate : ℕ → ProcessState → List ProcessState
replicate zero state = []
replicate (suc n) state = state ∷ replicate n state

abbrev pub states : List RailItem → List ProcessState
states items = map (λ (item : RailItem). item.state) items

process_state-within :
    (index active count : ℕ)
    → 1 ≤ active
    → active ≤ count
    → process_state index (some active) count ≡ state_at index (some active)
unfolding process_state
process_state-within index active count h k = ground arith

states-cons :
    (active_step : Option ℕ) (count index : ℕ) (step : ProcessStep) (steps : List ProcessStep)
    → states (rail_from active_step count index (step ∷ steps))
      ≡ process_state index active_step count
        ∷ states (rail_from active_step count (suc index) steps)
unfolding rail_from
states-cons active_step count index step steps = refl

states-past :
    (active count index : ℕ) (steps : List ProcessStep)
    → 1 ≤ active
    → active ≤ count
    → active ≤ index
    → states (rail_from (some active) count index steps) ≡ replicate (length steps) upcoming
states-past active count index [] h k l = unfold rail_from in refl
states-past active count index (step ∷ steps) h k l =
    states-cons (some active) count index step steps
    ∙ rw
        (
          process_state-within index active count h k,
          states-past active count (suc index) steps h k (omega arith),
        )
        (ground arith)

states-ahead :
    (before active count index : ℕ) (steps : List ProcessStep)
    → 1 ≤ active
    → active ≤ count
    → index + suc before ≡ active
    → before < length steps
    → states (rail_from (some active) count index steps)
      ≡ replicate before complete ++ (present ∷ replicate (length steps - suc before) upcoming)
states-ahead before active count index [] h k e l = absurd (omega arith)
states-ahead zero active count index (step ∷ steps) h k e l =
    states-cons (some active) count index step steps
    ∙ rw
        (
          process_state-within index active count h k,
          states-past active count (suc index) steps h k (omega arith),
        )
        (ground arith)
states-ahead (suc before) active count index (step ∷ steps) h k e l =
    states-cons (some active) count index step steps
    ∙ rw
        (
          process_state-within index active count h k,
          states-ahead before active count (suc index) steps h k (omega arith) (omega arith),
        )
        (ground arith)

-- A rail whose active step is one of its steps, counted from one, shows the steps before it as
-- complete, it as the current one, and those behind it as upcoming.
process_rail-states :
    (active : ℕ) (steps : List ProcessStep)
    → 1 ≤ active
    → active ≤ length steps
    → states (process_rail steps (some active))
      ≡ replicate (active - 1) complete ++ (present ∷ replicate (length steps - active) upcoming)
unfolding process_rail
process_rail-states zero steps h k = absurd (omega arith)
process_rail-states (suc before) steps h k =
    states-ahead before (suc before) (length steps) 0 steps h k (omega arith) (omega arith)
    ∙ ground arith

-- No two links have one key.
abbrev pub DistinctKeys : List NavLink → Type 0
DistinctKeys [] = Unit
DistinctKeys (item ∷ items) =
    All (λ (other : NavLink). same_key item.key other.key ≡ false) items × DistinctKeys items

abbrev pub is_some : Option String → Bool
is_some none = false
is_some (some text) = true

abbrev pub pages : List Anchor → ℕ
pages anchors = length (filter (λ (a : Anchor). is_some a.aria_current) anchors)

anchor-current :
    (current : Option String) (item : NavLink)
    → is_some (anchor current item).aria_current ≡ is_current item current
unfolding anchor
anchor-current current item = elim (Bool-cases (is_current item current)) [
  | inl h ↦ rw h refl
  | inr h ↦ rw h refl
]

same_key_trans :
    (a b current : Option String)
    → same_key a current ≡ true
    → same_key a b ≡ false
    → same_key b current ≡ false
same_key_trans none b current h k = absurd (ground arith)
same_key_trans (some a) none current h k = refl
same_key_trans (some a) (some b) none h k = refl
same_key_trans (some a) (some b) (some c) h k = elim (Bool-cases (str_eq b c)) [
  | inr e ↦ e
  | inl e ↦
      let same : a ≡ b = (str_eq_iff a c).0 h ∙ sym ((str_eq_iff b c).0 e) in
      absurd (ground (arith, (str_eq_iff a b).1 same))
]

pages-none :
    (current : Option String) (item : NavLink) (items : List NavLink)
    → is_current item current ≡ true
    → All (λ (other : NavLink). same_key item.key other.key ≡ false) items
    → pages (map (anchor current) items) ≡ 0
pages-none current item [] h k = refl
pages-none current item (other ∷ items) h (k, ks) =
    let e : is_some (anchor current other).aria_current ≡ false =
      anchor-current current other
      ∙ unfold is_current in same_key_trans item.key other.key current (unfold is_current in h) k in
    rw e (pages-none current item items h ks)

pages-le :
    (current : Option String) (items : List NavLink)
    → DistinctKeys items
    → pages (map (anchor current) items) ≤ 1
pages-le current [] d = omega arith
pages-le current (item ∷ items) (d, ds) = elim (Bool-cases (is_current item current)) [
  | inl h ↦ rw (anchor-current current item, h) (omega (arith, pages-none current item items h d))
  | inr h ↦ rw (anchor-current current item, h) (pages-le current items ds)
]

pages-actions :
    (anchors : List Anchor) (action : Option NavLink)
    → pages (anchors ++ actions action) ≡ pages anchors
unfolding header_action
pages-actions [] none = refl
pages-actions [] (some action) = refl
pages-actions (a ∷ anchors) action = elim (Bool-cases (is_some a.aria_current)) [
  | inl h ↦ rw h (ground (arith, pages-actions anchors action))
  | inr h ↦ rw h (pages-actions anchors action)
]

-- Where no two links have one key, at most one link of the header's list is marked as the current
-- page, and at most one of its mobile list, which has the action too.
product_header-pages :
    (items : List NavLink) (current : Option String) (action : Option NavLink)
    → DistinctKeys items
    → (pages (product_header items current action).desktop ≤ 1)
      × (pages (product_header items current action).mobile ≤ 1)
unfolding product_header
product_header-pages items current action d = (
  pages-le current items d,
  rw (pages-actions (map (anchor current) items) action) (pages-le current items d),
)
