-- ===== src/Ui/Select/Chosen.antt =====
-- When `onchange` is called, and with what.
use rust_v.Prelude.{
  ℕ, String, ◌≡◌, ◌≢◌, refl, ap, sym, ◌∙◌, inl, inr, true, false, Option, none, some, get_elem?,
  Bool-cases, arith, if◌then◌else◌,
}
use rust_v.Prelude.Text.{str_eq, str_eq_iff}
use rust_v.Ui.Select.{
  Choice, Props, Picker, arrow_up, arrow_down, home, end_key, enter, escape, other, Event,
  trigger_click, trigger_key, input, blur, search_key, hover, pick, visible, current, selected_at,
  expanded, handle,
}

-- The events that choose an option, with the index of it.
pub data Chooses (to_lowercase : String → String) (p : Props) (s : Picker)
    : Event → ℕ → Type 0 where
  by_enter : Chooses to_lowercase p s (search_key false enter) (current to_lowercase p s)
  by_click : (index : ℕ) → Chooses to_lowercase p s (pick index) index

module _ (to_lowercase : String → String) (p : Props) (s : Picker) where
  -- What has happened where a value is handed out.
  pub record IsChosen (event : Event) (value : String) : Type 0 where
    pub index : ℕ
    pub label : String
    pub chooses : Chooses to_lowercase p s event index
    pub shown : get_elem? (visible to_lowercase p s) index ≡ some (value, label)
    pub popup : expanded p s ≡ true
    pub differs : value ≢ p.value
    pub closes : (handle to_lowercase p s event).0.is_open ≡ false

  selected_at-some :
      (o : Option Choice) (value : String)
      → (selected_at p s o).1 ≡ some value
      → (label : String) × (o ≡ some (value, label))
        × (value ≢ p.value)
        × ((selected_at p s o).0.is_open ≡ false)
  selected_at-some none value h = absurd (ground arith)
  selected_at-some (some (key, label)) value h = elim (Bool-cases (str_eq key p.value)) [
    | inl e ↦ absurd (ground arith)
    | inr e ↦
        let same : key ≡ value = ground arith in
        (
          label,
          ap (λ (k : String). some (k, label)) same,
          λ q. absurd (ground (arith, (str_eq_iff key p.value).1 (same ∙ q))),
          refl,
        )
  ]

  from_selection :
      (event : Event) (index : ℕ) (value : String)
      → Chooses to_lowercase p s event index
      → handle to_lowercase p s event ≡ (
          if expanded p s
          then selected_at p s (get_elem? (visible to_lowercase p s) index)
          else (s, none))
      → (handle to_lowercase p s event).1 ≡ some value
      → IsChosen event value
  from_selection event index value c e h = elim (Bool-cases (expanded p s)) [
    | inr shut ↦ absurd (ground arith)
    | inl popup ↦
        let e' : handle to_lowercase p s event
            ≡ selected_at p s (get_elem? (visible to_lowercase p s) index) =
          rw popup at e in
        let (label, shown, differs, closes) =
          selected_at-some (get_elem? (visible to_lowercase p s) index) value
            (sym (ap (λ (r : Picker × Option String). r.1) e') ∙ h) in
        record {
          index = index;
          label = label;
          chooses = c;
          shown = shown;
          popup = popup;
          differs = differs;
          closes = ap (λ (r : Picker × Option String). r.0.is_open) e' ∙ closes;
        }
  ]

  -- `onchange` is called only while the popup is open on an enabled component, by `Enter` or by a
  -- click on an option; with the value of the option that is highlighted or clicked, which matches
  -- the query and is not the value selected before; and the popup closes.
  pub handle-IsChosen :
      (event : Event) (value : String)
      → (handle to_lowercase p s event).1 ≡ some value
      → IsChosen event value
  unfolding handle
  handle-IsChosen trigger_click value h = absurd (ground arith)
  handle-IsChosen (trigger_key key) value h = absurd (ground arith)
  handle-IsChosen (input text) value h = absurd (ground arith)
  handle-IsChosen blur value h = absurd (ground arith)
  handle-IsChosen (search_key true key) value h = absurd (ground arith)
  handle-IsChosen (search_key false enter) value h =
      from_selection (search_key false enter) (current to_lowercase p s) value by_enter refl h
  handle-IsChosen (search_key false arrow_up) value h = absurd (ground arith)
  handle-IsChosen (search_key false arrow_down) value h = absurd (ground arith)
  handle-IsChosen (search_key false home) value h = absurd (ground arith)
  handle-IsChosen (search_key false end_key) value h = absurd (ground arith)
  handle-IsChosen (search_key false escape) value h = absurd (ground arith)
  handle-IsChosen (search_key false other) value h = absurd (ground arith)
  handle-IsChosen (hover index) value h = absurd (ground arith)
  handle-IsChosen (pick index) value h =
      from_selection (pick index) index value (by_click index) refl h
