-- ===== src/Ui/Navigation.antt =====
-- crates/rv2-ui/src/product_shell.rs: the links of a header or a rail, and the steps of a process.
pub mod Current
use rust_v.Prelude.{
  ℕ, zero, suc, ◌+◌, String, Bool, true, false, ◌&&◌, Option, none, some, List, [], ◌∷◌, ◌++◌, map,
  length, ltb, leb, ◌==◌, if◌then◌else◌,
}
use rust_v.Prelude.Text.{str_eq}

pub record NavLink : Type 0 where
  pub key : Option String
  pub label : String
  pub href : String
  pub external : Bool

unfoldable pub nav_link : String → String → NavLink
nav_link label href = record { key = none; label = label; href = href; external = false }

unfoldable pub route : String → String → String → NavLink
unfolding nav_link
route key label href = record (nav_link label href) { key = some key }

unfoldable pub external : NavLink → NavLink
external link = record link { external = true }

abbrev same_key : Option String → Option String → Bool
same_key none current = false
same_key (some key) none = false
same_key (some key) (some current) = str_eq key current

-- `item.key.is_some() && item.key.as_deref() == current`
unfoldable pub is_current : NavLink → Option String → Bool
is_current item current = same_key item.key current

-- `then_some`
abbrev pub then_some : Bool → String → Option String
then_some b text = if b then some text else none

pub record Anchor : Type 0 where
  pub href : String
  pub label : String
  pub aria_current : Option String
  pub target : Option String
  pub rel : Option String

unfoldable pub anchor : Option String → NavLink → Anchor
unfolding is_current
anchor current item = record {
  href = item.href;
  label = item.label;
  aria_current = then_some (is_current item current) "page";
  target = then_some item.external "_blank";
  rel = then_some item.external "noopener noreferrer";
}

-- `render_header_action`: an action is never the current page.
unfoldable pub header_action : NavLink → Anchor
header_action action = record {
  href = action.href;
  label = action.label;
  aria_current = none;
  target = then_some action.external "_blank";
  rel = then_some action.external "noopener noreferrer";
}

abbrev pub actions : Option NavLink → List Anchor
actions none = []
actions (some action) = header_action action ∷ []

-- `ProductHeader`: its two lists of links, and the action beside the first.
pub record Header : Type 0 where
  pub desktop : List Anchor
  pub desktop_action : List Anchor
  pub mobile : List Anchor

unfoldable pub product_header : List NavLink → Option String → Option NavLink → Header
unfolding anchor header_action
product_header items current action = record {
  desktop = map (anchor current) items;
  desktop_action = actions action;
  mobile = map (anchor current) items ++ actions action;
}

-- `NavigationRail`
unfoldable pub navigation_rail : List NavLink → Option String → List Anchor
unfolding anchor
navigation_rail items current = map (anchor current) items

pub data ProcessState : Type 0 where
  complete present upcoming : ProcessState

-- `filter(|step| (1..=count).contains(step))`
abbrev within : ℕ → Option ℕ → Option ℕ
within count none = none
within count (some step) = if leb 1 step && leb step count then some step else none

abbrev state_at : ℕ → Option ℕ → ProcessState
state_at index none = upcoming
state_at index (some active) =
    if ltb (index + 1) active then complete else if index + 1 == active then present else upcoming

unfoldable pub process_state : ℕ → Option ℕ → ℕ → ProcessState
process_state index active_step count = state_at index (within count active_step)

abbrev step_current : ProcessState → Option String
step_current present = some "step"
step_current _ = none

pub record ProcessStep : Type 0 where
  pub label : String
  pub hint : String
  pub href : Option String

-- `ProcessRailItem`: a link where the step has an address, and plain text elsewhere.
pub record RailItem : Type 0 where
  pub state : ProcessState
  pub number : ℕ
  pub href : Option String
  pub aria_current : Option String

unfoldable pub rail_item : ProcessStep → ℕ → Option ℕ → ℕ → RailItem
unfolding process_state
rail_item step index active_step count =
    let state = process_state index active_step count in
    record {
      state = state;
      number = index + 1;
      href = step.href;
      aria_current = step_current state;
    }

unfoldable pub rail_from : Option ℕ → ℕ → ℕ → List ProcessStep → List RailItem
unfolding rail_item
rail_from active_step count index [] = []
rail_from active_step count index (step ∷ steps) =
    rail_item step index active_step count ∷ rail_from active_step count (suc index) steps

-- `ProcessRail`
unfoldable pub process_rail : List ProcessStep → Option ℕ → List RailItem
unfolding rail_from
process_rail steps active_step = rail_from active_step (length steps) 0 steps
