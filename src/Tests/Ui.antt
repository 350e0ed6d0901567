-- ===== src/Tests/Ui.antt =====
-- Concrete tabs, options, fields and links.
use rust_v.Prelude.{String, ◌≡◌, ◌≢◌, refl, true, false, none, some, List, [], ◌∷◌}
use rust_v.Prelude.Text.Search.{contains, strip_prefix}
use rust_v.Ui.Tabs
use rust_v.Ui.Tabs.{
  Tab, TabStep, Key, current_of, position, triggers, on_move, on_key_down, panics, selects, stored,
}
use rust_v.Ui.Tabs.Moves.{Distinct, IsMoved, on_key_down-IsMoved}
use rust_v.Ui.Select.{
  Choice, Props, Picker, Event, trigger_click, pick, search_key, command_step, visible, handle,
  shown, active_descendant,
}
use rust_v.Ui.Select
use rust_v.Ui.Select.Chosen.{IsChosen, handle-IsChosen}
use rust_v.Ui.Fields.{FieldProps, text_field, text_area}
use rust_v.Ui.Fields.Described.{IsDescribed, fields-IsDescribed}
use rust_v.Ui.Navigation.{
  NavLink, ProcessStep, complete, present, upcoming, product_header, process_rail,
}
use rust_v.Ui.Navigation.Current.{replicate, states, pages}

abbrev list_tab : Tab
list_tab = record { value = "list"; label = "List" }

abbrev more_tabs : List Tab
more_tabs =
    record { value = "map"; label = "Map" } ∷ record { value = "table"; label = "Table" } ∷ []

distinct : Distinct (list_tab ∷ more_tabs)
distinct = ((refl, (refl, tt)), ((refl, tt), (tt, tt)))

right_of_the_last : on_move (list_tab ∷ more_tabs) "table" TabStep.next ≡ Tabs.stays
unfolding on_move
right_of_the_last = refl

unknown_value : current_of (list_tab ∷ more_tabs) "calendar" ≡ 0
unfolding current_of
unknown_value = refl

on_key_down-IsMoved_example :
    (on_key_down (list_tab ∷ more_tabs) "map" Key.arrow_right ≢ panics)
    × IsMoved Key.arrow_right 2 (current_of (list_tab ∷ more_tabs) "map") (
        current_of
          (list_tab ∷ more_tabs)
          (stored "map" (on_key_down (list_tab ∷ more_tabs) "map" Key.arrow_right)))
on_key_down-IsMoved_example = on_key_down-IsMoved list_tab more_tabs "map" Key.arrow_right distinct

abbrev same : String → String
same s = s

abbrev cities : Props
cities = record {
  value = "vno";
  options = ("vno", "Vilnius") ∷ ("rix", "Riga") ∷ ("tll", "Tallinn") ∷ [];
  disabled = false;
}

abbrev searching : Picker
searching = record { is_open = true; query = "i"; active = 1 }

second_is_picked : (handle same cities searching (search_key false Select.enter)).1 ≡ some "rix"
unfolding handle contains strip_prefix
second_is_picked = refl

handle-IsChosen_example : IsChosen same cities searching (search_key false Select.enter) "rix"
handle-IsChosen_example =
    handle-IsChosen same cities searching (search_key false Select.enter) "rix" second_is_picked

abbrev email_field : FieldProps
email_field = record {
  label = "Email";
  value = "";
  id = none;
  help = some "We send one mail.";
  error = some "  ";
  disabled = false;
}

fields-IsDescribed_example :
    IsDescribed (text_field "7" email_field) × IsDescribed (text_area "7" email_field)
fields-IsDescribed_example = fields-IsDescribed "7" email_field

abbrev plain_step : ProcessStep
plain_step = record { label = "Step"; hint = ""; href = none }

abbrev four_steps : List ProcessStep
four_steps = plain_step ∷ plain_step ∷ plain_step ∷ plain_step ∷ []

abbrev links : List NavLink
links =
    record { key = some "posts"; label = "Posts"; href = "/posts"; external = false }
    ∷ record { key = none; label = "Docs"; href = "https://docs.example"; external = true }
    ∷ []

third_is_current :
    states (process_rail four_steps (some 3)) ≡ complete ∷ complete ∷ present ∷ upcoming ∷ []
unfolding process_rail
third_is_current = refl

no_such_step : states (process_rail four_steps (some 5)) ≡ replicate 4 upcoming
unfolding process_rail
no_such_step = refl

one_current_page : pages (product_header links (some "posts") none).mobile ≡ 1
unfolding product_header
one_current_page = refl

up_wraps : command_step 0 3 true ≡ some 2
unfolding command_step
up_wraps = refl

active_is_named : active_descendant same cities searching ≡ some 1
unfolding active_descendant contains strip_prefix
active_is_named = refl
