-- ===== src/Tests/Gates.antt =====
-- Concrete lines and sources for the gates, and a machine on which every command succeeds.
use mathlib.Core.List.{Memᴰ}
use rust_v.Prelude.{String, ◌≡◌, ◌↔◌, refl, true, some, [], ◌∷◌}
use rust_v.Prelude.Text.{trim}
use rust_v.Prelude.Text.Lines.{lines}
use rust_v.Gates.Isa.{raw_elements, scan, Offender}
use rust_v.Gates.Isa.Excused.{Reported, scan-Reported}
use rust_v.Gates.Isa.Sources.{Entries, nothing, file, directory}
use rust_v.Gates.Scans.{is_licensed}

element_at_the_start : raw_elements "        button {" ≡ "button" ∷ []
unfolding raw_elements
element_at_the_start = refl

element_nested : raw_elements "li { a { href: \"/\", \"Home\" } }" ≡ "a" ∷ []
unfolding raw_elements
element_nested = refl

expression_passes : raw_elements "        match a {" ≡ []
unfolding raw_elements
expression_passes = refl

component_passes : raw_elements "        Button { variant: Variant::Outline," ≡ []
unfolding raw_elements
component_passes = refl

comment_passes : raw_elements "    // button { was here }" ≡ []
unfolding raw_elements
comment_passes = refl

abbrev planted : String
planted = "rsx! {\n    button { class: \"rounded-md\", \"Go\" }\n}\n"

abbrev planted_offender : Offender
planted_offender = record {
  path = "x.rs";
  line = 2;
  text = "button { class: \"rounded-md\", \"Go\" }";
}

planted_is_reported : scan "x.rs" planted ≡ planted_offender ∷ []
unfolding scan trim
planted_is_reported = refl

comment_above_excuses :
    scan "x.rs" "// isa-raw-ok: a skip link must be first\n// and invisible\na {\n" ≡ []
unfolding scan
comment_above_excuses = refl

code_between_excuses_nothing :
    scan "x.rs" "// isa-raw-ok: for the span\nspan {}\nbutton {\n"
    ≡ record { path = "x.rs"; line = 3; text = "button {" } ∷ []
unfolding scan trim
code_between_excuses_nothing = refl

vendored_line :
    is_licensed "./vendor/better-auth/src/lib.rs:12:  #[cfg(feature = \"sqlx-postgres\")]" ≡ true
unfolding is_licensed
vendored_line = refl

abbrev nested : String
nested = "li { a { href } }"

nested_found : raw_elements nested ≡ "a" ∷ []
unfolding raw_elements
nested_found = refl

scan-Reported_example :
    Memᴰ planted_offender (scan "x.rs" planted)
    ↔ Reported "x.rs" 0 [] (lines planted) planted_offender
scan-Reported_example = scan-Reported "x.rs" planted planted_offender

abbrev one_app : Entries
one_app = directory "app" (directory "src" (file "main.rs" (some planted) nothing) nothing) nothing
