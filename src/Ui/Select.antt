-- ===== src/Ui/Select.antt =====
-- crates/rv2-ui/src/command_select.rs: a selection from a list that a query narrows.
pub mod Chosen
pub mod Wrapped
use Prim.Native.String
use rust_v.Prelude.{
  ℕ, zero, suc, ◌+◌, ◌-◌, ◌%◌, String, Bool, true, false, not, ◌&&◌, Option, none, some, List, [],
  ◌∷◌, filter, get_elem?, length, ltb, ◌==◌, if◌then◌else◌,
}
use rust_v.Prelude.Text.{str_eq}
use rust_v.Prelude.Text.Search.{contains}
use rust_v.Prelude.Text.Lines.{split_whitespace}
use rust_v.Ui.Tabs.{min}

-- The value and the label of an option.
abbrev pub Choice : Type 0
Choice = String × String

abbrev pub all : (String → Bool) → List String → Bool
all p [] = true
all p (word ∷ words) = p word && all p words

unfoldable pub command_step : ℕ → ℕ → Bool → Option ℕ
command_step current zero previous = none
command_step current (suc last) previous =
    let at = min current last in
    some (if previous then (at + suc last - 1) % suc last else (at + 1) % suc last)

pub record Props : Type 0 where
  pub value : String
  pub options : List Choice
  pub disabled : Bool

-- The signals of the component.
pub record Picker : Type 0 where
  pub is_open : Bool
  pub query : String
  pub active : ℕ

-- The keys that the component knows.
pub data Key : Type 0 where
  arrow_up arrow_down home end_key enter escape other : Key

-- What the browser may report: of the trigger, of the search field, or of an option by its index.
pub data Event : Type 0 where
  trigger_click : Event
  trigger_key : (key : Key) → Event
  input : (text : String) → Event
  blur : Event
  search_key : (composing : Bool) → (key : Key) → Event
  hover : (index : ℕ) → Event
  pick : (index : ℕ) → Event

abbrev pub or_zero : Option ℕ → ℕ
or_zero none = 0
or_zero (some n) = n

abbrev shift : Option ℕ → Option ℕ
shift none = none
shift (some n) = some (suc n)

unfoldable pub position : List Choice → String → Option ℕ
position [] value = none
position ((key, text) ∷ options) value =
    let later = shift (position options value) in if str_eq key value then some 0 else later

-- An option as it is rendered.
pub record Shown : Type 0 where
  pub id_index : ℕ
  pub choice : Choice
  pub highlighted : Bool
  pub selected : Bool

unfoldable pub shown_from : String → ℕ → ℕ → List Choice → List Shown
shown_from value at index [] = []
shown_from value at index (choice ∷ choices) =
    record {
      id_index = index;
      choice = choice;
      highlighted = index == at;
      selected = str_eq choice.0 value;
    }
    ∷ shown_from value at (suc index) choices

abbrev pub closed : Picker → Picker
closed s = record s { is_open = false }

-- `if key != value { onchange.call(key) }`
abbrev pub changed : Props → Choice → Option String
changed p choice = if str_eq choice.0 p.value then none else some choice.0

abbrev pub selected_at : Props → Picker → Option Choice → Picker × Option String
selected_at p s none = (s, none)
selected_at p s (some choice) = (closed s, changed p choice)

abbrev stepped : Picker → Option ℕ → Picker
stepped s none = s
stepped s (some next) = record s { active = next }

abbrev on_trigger_key : Props → Picker → Key → Picker
on_trigger_key p s arrow_up = record { is_open = true; query = ""; active = length p.options - 1 }
on_trigger_key p s arrow_down = record { is_open = true; query = ""; active = 0 }
on_trigger_key p s _ = s

abbrev pub expanded : Props → Picker → Bool
expanded p s = s.is_open && not p.disabled

-- `str::to_lowercase`, by the tables of Unicode.
module _ (to_lowercase : String → String) where
  unfoldable pub command_matches : String → String → Bool
  unfolding split_whitespace contains
  command_matches label query =
      all (λ word. contains (to_lowercase word) (to_lowercase label)) (split_whitespace query)

  unfoldable pub visible : Props → Picker → List Choice
  unfolding command_matches
  visible p s = filter (λ (choice : Choice). command_matches choice.1 s.query) p.options

  unfoldable pub current : Props → Picker → ℕ
  unfolding visible
  current p s = min s.active (length (visible p s) - 1)

  unfoldable pub shown : Props → Picker → List Shown
  unfolding shown_from current visible
  shown p s = shown_from p.value (current p s) 0 (visible p s)

  -- `aria-activedescendant`, by the index in the identifier.
  unfoldable pub active_descendant : Props → Picker → Option ℕ
  unfolding current visible
  active_descendant p s = if length (visible p s) == 0 then none else some (current p s)

  -- `Home` and `End` are handled where there is an option.
  abbrev pub on_search_key : Props → Picker → Key → Picker × Option String
  on_search_key p s arrow_up =
      (stepped s (command_step (current p s) (length (visible p s)) true), none)
  on_search_key p s arrow_down =
      (stepped s (command_step (current p s) (length (visible p s)) false), none)
  on_search_key p s home = (if length (visible p s) == 0 then s else record s { active = 0 }, none)
  on_search_key p s end_key = (
    if length (visible p s) == 0 then s else record s { active = length (visible p s) - 1 },
    none,
  )
  on_search_key p s enter = selected_at p s (get_elem? (visible p s) (current p s))
  on_search_key p s escape = (closed s, none)
  on_search_key p s other = (s, none)

  -- The search field and the options are there while the popup is.
  abbrev pub on_popup : Props → Picker → Event → Picker × Option String
  on_popup p s (input text) = (record s { query = text; active = 0 }, none)
  on_popup p s blur = (closed s, none)
  on_popup p s (search_key composing key) = if composing then (s, none) else on_search_key p s key
  on_popup p s (hover index) =
      (if ltb index (length (visible p s)) then record s { active = index } else s, none)
  on_popup p s (pick index) = selected_at p s (get_elem? (visible p s) index)
  on_popup p s trigger_click = (s, none)
  on_popup p s (trigger_key key) = (s, none)

  -- The state after an event, and the value that `onchange` is called with. The trigger of a
  -- disabled component reports nothing.
  unfoldable pub handle : Props → Picker → Event → Picker × Option String
  unfolding command_step current visible position
  handle p s trigger_click = (
    if p.disabled then s else record {
      is_open = not s.is_open;
      query = "";
      active = or_zero (position p.options p.value);
    },
    none,
  )
  handle p s (trigger_key key) = (if p.disabled then s else on_trigger_key p s key, none)
  handle p s event = if expanded p s then on_popup p s event else (s, none)
