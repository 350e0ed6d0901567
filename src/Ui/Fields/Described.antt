-- ===== src/Ui/Fields/Described.antt =====
-- The identifiers that a field names, and the paragraphs that it shows.
use rust_v.Prelude.{
  String, ◌≡◌, refl, ap, inl, inr, Bool, true, false, ◌||◌, Option, none, some, List, [], ◌∷◌, ◌++◌,
  map, any, Bool-cases, arith, if◌then◌else◌,
}
use rust_v.Prelude.Text.{is_empty, trim}
use rust_v.Ui.Fields.{
  suffixed, is_said, said, then_joined, field_description, Paragraph, paragraph, field_shell,
  FieldProps, Field, text_field, text_area,
}

paragraph-ids :
    (id : String) (alert : Bool) (text : Option String)
    → map (λ (p : Paragraph). p.id) (paragraph id alert (said text))
      ≡ (if is_said text then id ∷ [] else [])
paragraph-ids id alert none = refl
paragraph-ids id alert (some text) = elim (Bool-cases (is_empty (trim text))) [
  | inl h ↦ rw h refl
  | inr h ↦ rw h refl
]

paragraph-alert :
    (id : String) (alert : Bool) (text : Option String)
    → any (λ (p : Paragraph). p.alert) (paragraph id alert (said text))
      ≡ (if is_said text then alert else false)
paragraph-alert id alert none = refl
paragraph-alert id alert (some text) = elim (Bool-cases (is_empty (trim text))) [
  | inl h ↦ rw h refl
  | inr h ↦ rw h (ground arith)
]

map-append :
    (ps qs : List Paragraph)
    → map (λ (p : Paragraph). p.id) (ps ++ qs)
      ≡ map (λ (p : Paragraph). p.id) ps ++ map (λ (p : Paragraph). p.id) qs
map-append [] qs = refl
map-append (p ∷ ps) qs = ap (λ (l : List String). p.id ∷ l) (map-append ps qs)

any-append :
    (ps qs : List Paragraph)
    → any (λ (p : Paragraph). p.alert) (ps ++ qs)
      ≡ (any (λ (p : Paragraph). p.alert) ps || any (λ (p : Paragraph). p.alert) qs)
any-append [] qs = refl
any-append (p ∷ ps) qs = rw (any-append ps qs) (ground arith)

-- The label is for the control; the control is described by exactly the paragraphs that are shown,
-- and by none where none is; and it is invalid exactly where an alert is shown.
abbrev pub IsDescribed : Field → Type 0
IsDescribed f =
    (f.shell.label_for ≡ f.control.id)
    × (f.control.describedby ≡ then_joined (map (λ (p : Paragraph). p.id) f.shell.paragraphs))
    × (f.control.invalid ≡ any (λ (p : Paragraph). p.alert) f.shell.paragraphs)

described :
    (id label : String) (help error : Option String)
    → field_description id help error
      ≡ then_joined (map (λ (p : Paragraph). p.id) (field_shell id label help error).paragraphs)
unfolding field_description field_shell
described id label help error =
    rw
      (
        map-append (paragraph (suffixed id "-help") false (said help))
            (paragraph (suffixed id "-error") true (said error)),
        paragraph-ids (suffixed id "-help") false help,
        paragraph-ids (suffixed id "-error") true error,
      )
      refl

alerted :
    (id label : String) (help error : Option String)
    → is_said error ≡ any (λ (p : Paragraph). p.alert) (field_shell id label help error).paragraphs
unfolding field_shell
alerted id label help error =
    rw
      (
        any-append (paragraph (suffixed id "-help") false (said help))
            (paragraph (suffixed id "-error") true (said error)),
        paragraph-alert (suffixed id "-help") false help,
        paragraph-alert (suffixed id "-error") true error,
      )
      (ground arith)

-- A text field and a text area are labelled, described and marked as invalid as they are rendered:
-- the label is for the control, the control is described by exactly the paragraphs that are shown,
-- and it is invalid exactly where an alert is shown.
pub fields-IsDescribed :
    (scope : String) (p : FieldProps)
    → IsDescribed (text_field scope p) × IsDescribed (text_area scope p)
unfolding text_field text_area
fields-IsDescribed scope p = (
  (refl, described _ p.label p.help p.error, alerted _ p.label p.help p.error),
  (refl, described _ p.label p.help p.error, alerted _ p.label p.help p.error),
)
