-- ===== src/Ui/Tabs.antt =====
-- crates/rv2-ui/src/tabs.rs: a list of tabs, controlled by its caller.
pub mod Moves
use Prim.Native.String
use rust_v.Prelude.{
  ℕ, zero, suc, ◌+◌, ◌-◌, String, Bool, true, false, Option, none, some, List, [], ◌∷◌, get_elem?,
  length, ltb, ◌==◌, if◌then◌else◌,
}
use rust_v.Prelude.Text.{str_eq}

pub record Tab : Type 0 where
  pub value : String
  pub label : String

pub data TabStep : Type 0 where
  previous next first last : TabStep

pub data Key : Type 0 where
  arrow_left arrow_up arrow_right arrow_down home end_key : Key
  other : (name : String) → Key

-- `iter().position(..)`
abbrev pub shift : Option ℕ → Option ℕ
shift none = none
shift (some n) = some (suc n)

unfoldable pub position : List Tab → String → Option ℕ
position [] value = none
position (tab ∷ tabs) value =
    let later = shift (position tabs value) in if str_eq tab.value value then some 0 else later

abbrev pub or_zero : Option ℕ → ℕ
or_zero none = 0
or_zero (some n) = n

-- A value that no tab carries makes the first tab the current one.
unfoldable pub current_of : List Tab → String → ℕ
unfolding position
current_of tabs value = or_zero (position tabs value)

-- A `TabsTrigger` as it is rendered.
pub record Trigger : Type 0 where
  pub id : String
  pub value : String
  pub selected : Bool
  pub tabindex : String
  pub controls : String

abbrev trigger : String → ℕ → ℕ → Tab → Trigger
trigger controls current index tab = record {
  id = String.◌++◌ "tab-" tab.value;
  value = tab.value;
  selected = index == current;
  tabindex = if index == current then "0" else "-1";
  controls = controls;
}

-- The loop over the tabs, from an index on.
unfoldable pub triggers_from : String → ℕ → ℕ → List Tab → List Trigger
triggers_from controls current index [] = []
triggers_from controls current index (tab ∷ tabs) =
    trigger controls current index tab ∷ triggers_from controls current (suc index) tabs

unfoldable pub triggers : List Tab → String → String → List Trigger
unfolding triggers_from current_of
triggers tabs value controls = triggers_from controls (current_of tabs value) 0 tabs

-- What a key asks for; any other key is left to the browser.
unfoldable pub step_of : Key → Option TabStep
step_of arrow_left = some previous
step_of arrow_up = some previous
step_of arrow_right = some next
step_of arrow_down = some next
step_of home = some first
step_of end_key = some last
step_of (other name) = none

abbrev pub min : ℕ → ℕ → ℕ
min a b = if ltb a b then a else b

unfoldable pub target : TabStep → ℕ → ℕ → ℕ
target previous current last_index = current - 1
target next current last_index = min (current + 1) last_index
target first current last_index = 0
target last current last_index = last_index

-- What a handler does: nothing, a call of `onselect`, or an index out of bounds.
pub data Answer : Type 0 where
  stays : Answer
  selects : (value : String) → Answer
  panics : Answer

abbrev pub chosen : Option Tab → Answer
chosen none = panics
chosen (some tab) = selects tab.value

-- The value at the target, where that differs; `tabs.len() - 1` of an empty list panics.
unfoldable pub on_move : List Tab → String → TabStep → Answer
unfolding current_of target
on_move [] value step = panics
on_move (tab ∷ tabs) value step =
    let current = current_of (tab ∷ tabs) value in
    let aim = target step current (length tabs) in
    if aim == current then stays else chosen (get_elem? (tab ∷ tabs) aim)

abbrev moved : List Tab → String → Option TabStep → Answer
moved tabs value none = stays
moved tabs value (some step) = on_move tabs value step

unfoldable pub on_key_down : List Tab → String → Key → Answer
unfolding on_move step_of
on_key_down tabs value key = moved tabs value (step_of key)

unfoldable pub on_click : Tab → Answer
on_click tab = selects tab.value

-- The caller stores what is selected.
abbrev pub stored : String → Answer → String
stored value stays = value
stored value (selects v) = v
stored value panics = value
