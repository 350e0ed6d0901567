-- ===== src/Ui/Fields.antt =====
-- crates/rv2-ui/src/form.rs: the fields of a form, and what describes them to a screen reader.
pub mod Described
use Prim.Native.String
use rust_v.Prelude.{
  ℕ, String, Bool, true, false, not, Option, none, some, List, [], ◌∷◌, ◌++◌, map, ltb, ◌==◌,
  if◌then◌else◌,
}
use rust_v.Prelude.Text.{is_empty, trim, str_eq}

abbrev pub suffixed : String → String → String
suffixed id suffix = String.◌++◌ id suffix

-- `is_some_and(|v| !v.trim().is_empty())`
abbrev pub is_said : Option String → Bool
is_said none = false
is_said (some text) = not (is_empty (trim text))

-- `ids.join(" ")`
abbrev pub joined : List String → String
joined [] = ""
joined (id ∷ []) = id
joined (id ∷ next ∷ ids) = String.◌++◌ id (String.◌++◌ " " (joined (next ∷ ids)))

-- `(!ids.is_empty()).then(|| ids.join(" "))`
abbrev pub then_joined : List String → Option String
then_joined [] = none
then_joined (id ∷ ids) = some (joined (id ∷ ids))

unfoldable pub field_description : String → Option String → Option String → Option String
unfolding trim
field_description id help error = then_joined (
    (if is_said help then suffixed id "-help" ∷ [] else [])
    ++ (if is_said error then suffixed id "-error" ∷ [] else []))

-- A paragraph under the control.
pub record Paragraph : Type 0 where
  pub id : String
  pub text : String
  pub alert : Bool

-- `filter(|s| !s.trim().is_empty())`
abbrev pub said : Option String → Option String
said none = none
said (some text) = if is_empty (trim text) then none else some text

abbrev pub paragraph : String → Bool → Option String → List Paragraph
paragraph id alert none = []
paragraph id alert (some text) = record { id = id; text = text; alert = alert } ∷ []

-- `FieldShell`: what the label is for, and the paragraphs.
pub record Shell : Type 0 where
  pub label_for : String
  pub label : String
  pub paragraphs : List Paragraph

unfoldable pub field_shell : String → String → Option String → Option String → Shell
unfolding trim
field_shell id label help error = record {
  label_for = id;
  label = label;
  paragraphs =
      paragraph (suffixed id "-help") false (said help)
      ++ paragraph (suffixed id "-error") true (said error);
}

-- The attributes of an `input` or a `textarea` that the field decides on.
pub record Control : Type 0 where
  pub id : String
  pub describedby : Option String
  pub invalid : Bool
  pub disabled : Bool
  pub value : String

pub record Field : Type 0 where
  pub shell : Shell
  pub control : Control

pub record FieldProps : Type 0 where
  pub label : String
  pub value : String
  pub id : Option String
  pub help : Option String
  pub error : Option String
  pub disabled : Bool

abbrev or_scope : String → Option String → String
or_scope scope none = String.◌++◌ "rv2-field-" scope
or_scope scope (some id) = id

abbrev field_of : FieldProps → String → Field
field_of p id = record {
  shell = field_shell id p.label p.help p.error;
  control = record {
    id = id;
    describedby = field_description id p.help p.error;
    invalid = is_said p.error;
    disabled = p.disabled;
    value = p.value;
  };
}

-- `TextField`, given the number of its scope as a text.
unfoldable pub text_field : String → FieldProps → Field
unfolding field_shell field_description
text_field scope p = field_of p (or_scope scope p.id)

-- `TextArea`
unfoldable pub text_area : String → FieldProps → Field
unfolding field_shell field_description
text_area scope p = field_of p (or_scope scope p.id)

-- `Select`: the options, and which of them are marked as selected.
unfoldable pub select_options : String → List (String × String) → List (String × Bool)
select_options value options =
    map (λ (option : String × String). (option.0, str_eq option.0 value)) options

-- `Checkbox`: the tone, the count and the mark of a basis.
pub record Box : Type 0 where
  pub faint : Bool
  pub title : String
  pub count : Option ℕ
  pub marked : Bool

abbrev is_zero : Option ℕ → Bool
is_zero none = false
is_zero (some n) = n == 0

abbrev or_empty : Option String → String
or_empty none = ""
or_empty (some text) = text

abbrev is_some : Option String → Bool
is_some none = false
is_some (some text) = true

unfoldable pub checkbox : Option ℕ → Option String → Box
checkbox count basis = record {
  faint = is_zero count;
  title = or_empty basis;
  count = count;
  marked = is_some basis;
}

-- `FieldSet`: the number of active controls, where it is shown.
unfoldable pub field_set_active : ℕ → Option ℕ
field_set_active active = if ltb 0 active then some active else none
