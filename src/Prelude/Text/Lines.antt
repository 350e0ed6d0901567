-- ===== src/Prelude/Text/Lines.antt =====
-- `s.lines()` and `s.split_whitespace()`.
use Prim.Native.Char.{Char, code}
use Prim.Native.String.{String}
use mathlib.Core.List.{List, [], ◌∷◌}
use rust_v.Prelude.Tests.{◌==◌, if◌then◌else◌}
use rust_v.Prelude.Text.{is_empty, is_whitespace, split}

-- `line.strip_suffix('\r').unwrap_or(line)`
unfoldable pub strip_return : String → String
strip_return String.[] = String.[]
strip_return (String.◌∷◌ c s) =
    let rest = String.◌∷◌ c (strip_return s) in
    if is_empty s then (if code c == 13 then String.[] else String.◌∷◌ c String.[]) else rest

-- A line that ends the text without a line feed keeps its carriage return.
unfoldable pub ended : List String → List String
unfolding strip_return
ended [] = []
ended (line ∷ []) = if is_empty line then [] else line ∷ []
ended (line ∷ next ∷ rest) = strip_return line ∷ ended (next ∷ rest)

unfoldable pub lines : String → List String
unfolding split ended
lines s = ended (split 10 s)

-- The character in front of the words of the rest.
unfoldable pub into_word : Char → String → List String → List String
unfolding is_whitespace
into_word c String.[] words = String.◌∷◌ c String.[] ∷ words
into_word c (String.◌∷◌ d s) [] = String.◌∷◌ c String.[] ∷ []
into_word c (String.◌∷◌ d s) (word ∷ words) =
    if is_whitespace (code d)
    then String.◌∷◌ c String.[] ∷ word ∷ words
    else String.◌∷◌ c word ∷ words

unfoldable pub split_whitespace : String → List String
unfolding into_word is_whitespace
split_whitespace String.[] = []
split_whitespace (String.◌∷◌ c s) =
    let words = split_whitespace s in if is_whitespace (code c) then words else into_word c s words
