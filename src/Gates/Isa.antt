-- ===== src/Gates/Isa.antt =====
-- tooling/xtask/src/isa.rs: the raw elements that an app may not write itself.
pub mod Opened
pub mod Excused
pub mod Sources
pub mod Clean
use Prim.Native.Char.{code}
use Prim.Native.String
use rust_v.Prelude.{
  ℕ, zero, suc, ◌+◌, String, Bool, true, false, not, ◌&&◌, ◌||◌, Option, none, some, List, [], ◌∷◌,
  ◌++◌, any, ◌==◌, if◌then◌else◌,
}
use rust_v.Prelude.Text.{is_empty, is_whitespace, trim_start, trim_end, trim}
use rust_v.Prelude.Text.Search.{begins_with, break_at, contains, ends_with}
use rust_v.Prelude.Text.Lines.{lines}

abbrev pub opt_out : String
opt_out = "isa-raw-ok"

abbrev pub elements : List String
elements = "a" ∷ "button" ∷ "input" ∷ "select" ∷ "textarea" ∷ "h1" ∷ "h2" ∷ "h3" ∷ "h4" ∷ []

abbrev pub is_comment : String → Bool
is_comment line = begins_with "//" (trim_start line)

-- `chars().next_back().is_none_or(..)`: the last character, if there is one, bounds a name.
unfoldable pub bounded : String → Bool
unfolding is_whitespace
bounded String.[] = true
bounded (String.◌∷◌ c s) =
    let later = bounded s in
    if is_empty s then (is_whitespace (code c) || code c == b'{') else later

abbrev opens_here : String → Bool
opens_here before = is_empty (trim_end before) || ends_with "{" (trim_end before)

unfoldable pub starts_white : String → Bool
unfolding is_whitespace
starts_white String.[] = false
starts_white (String.◌∷◌ c s) = is_whitespace (code c)

abbrev then_brace : String → Bool
then_brace rest = starts_white rest && begins_with "{" (trim_start rest)

-- Whether a name between the two texts opens an element.
unfoldable pub opens : String → String → Bool
unfolding bounded starts_white begins_with ends_with trim_start trim_end
opens before rest = opens_here before && bounded before && then_brace rest

abbrev joined : String → String → String → String
joined passed a name = String.◌++◌ passed (String.◌++◌ a name)

-- The `while let` loop for one name, on fuel: `passed` is `code[..from]`, `rest` is `code[from..]`.
unfoldable pub openings : ℕ → String → String → String → List String
unfolding opens break_at
openings zero name passed rest = []
openings (suc fuel) name passed rest = elim (break_at name rest) [
  | none ↦ []
  | some (a, b) ↦
      let later = openings fuel name (joined passed a name) b in
      if opens (String.◌++◌ passed a) b then name ∷ later else later
]

abbrev all_openings : List String → String → List String
all_openings [] code = []
all_openings (name ∷ names) code =
    openings (suc (String.count code)) name String.[] code ++ all_openings names code

unfoldable pub raw_elements : String → List String
unfolding openings
raw_elements line = if is_comment line then [] else all_openings elements (trim_start line)

-- `rev().take_while(..).any(..)`, on the lines above, the nearest first.
unfoldable pub excused : List String → Bool
unfolding contains begins_with trim_start
excused [] = false
excused (line ∷ above) = is_comment line && (contains opt_out line || excused above)

abbrev pub is_nil {ℓ} : {A : Type ℓ} → List A → Bool
is_nil [] = true
is_nil (x ∷ xs) = false

-- `path:line: text`
pub record Offender : Type 0 where
  pub path : String
  pub line : ℕ
  pub text : String

unfoldable pub offends : List String → String → Bool
unfolding raw_elements contains excused
offends above line =
    not (is_nil (raw_elements line) || contains opt_out line) && not (excused above)

abbrev pub offender : String → ℕ → String → Offender
offender path index line = record { path = path; line = index + 1; text = trim line }

-- The loop of `scan` at a line: its index, and the lines above it, the nearest first.
unfoldable pub scan_lines : String → ℕ → List String → List String → List Offender
unfolding offends
scan_lines path index above [] = []
scan_lines path index above (line ∷ below) =
    let later = scan_lines path (index + 1) (line ∷ above) below in
    if offends above line then offender path index line ∷ later else later

unfoldable pub scan : String → String → List Offender
unfolding scan_lines lines
scan path source = scan_lines path 0 [] (lines source)
