-- ===== src/Gates/Isa/Sources.antt =====
-- isa.rs: `rust_files` and `check`, over the directories of the apps.
use Prim.Native.String
use rust_v.Prelude.{
  ℕ, String, Bool, true, false, ◌||◌, ◌&&◌, Option, none, some, List, [], ◌∷◌, ◌++◌, Result, ok,
  err, ◌>>=◌, length, if◌then◌else◌,
}
use rust_v.Prelude.Text.{str_eq}
use rust_v.Prelude.Text.Order.{text_lt}
use rust_v.Xtask.Release.{has_extension}
use rust_v.Gates.Isa.{Offender, scan, is_nil}

-- A directory: its entries, each a file, whose text is missing where it is no UTF-8, or a directory.
pub data Entries : Type 0 where
  nothing : Entries
  file : (name : String) → (text : Option String) → (rest : Entries) → Entries
  directory : (name : String) → (inside : Entries) → (rest : Entries) → Entries

-- The parts of a path below the root, and the text of the file.
pub record Source : Type 0 where
  pub path : List String
  pub text : Option String

-- `rust_files`: the list is extended in the order of the directory.
unfoldable pub rust_files : List String → Entries → List Source
unfolding has_extension
rust_files dir nothing = []
rust_files dir (file name text rest) =
    let later = rust_files dir rest in
    if has_extension "rs" name
    then record { path = dir ++ (name ∷ []); text = text } ∷ later
    else later
rust_files dir (directory name inside rest) =
    rust_files (dir ++ (name ∷ [])) inside ++ rust_files dir rest

-- `app?.path().join("src")`, where that is a directory.
abbrev under_src : List String → Entries → List Source
under_src dir nothing = []
under_src dir (file name text rest) = under_src dir rest
under_src dir (directory name inside rest) =
    let later = under_src dir rest in
    if str_eq name "src" then rust_files (dir ++ (name ∷ [])) inside else later

-- The loop of `check` over the entries of `apps`: a file has no directory `src`.
unfoldable pub app_sources : Entries → List Source
unfolding rust_files
app_sources nothing = []
app_sources (file name text rest) = app_sources rest
app_sources (directory name inside rest) = under_src ("apps" ∷ name ∷ []) inside ++ app_sources rest

-- The order of paths, part by part.
unfoldable pub path_lt : List String → List String → Bool
unfolding text_lt
path_lt p [] = false
path_lt [] (d ∷ q) = true
path_lt (c ∷ p) (d ∷ q) = text_lt c d || (str_eq c d && path_lt p q)

unfoldable pub insert_source : Source → List Source → List Source
unfolding path_lt
insert_source s [] = s ∷ []
insert_source s (t ∷ sources) =
    let later = insert_source s sources in
    if path_lt t.path s.path then t ∷ later else s ∷ t ∷ sources

-- `files.sort()`
unfoldable pub sort : List Source → List Source
unfolding insert_source
sort [] = []
sort (s ∷ sources) = insert_source s (sort sources)

abbrev pub shown : List String → String
shown [] = ""
shown (part ∷ []) = part
shown (part ∷ next ∷ parts) = String.◌++◌ part (String.◌++◌ "/" (shown (next ∷ parts)))

pub data IsaFailure : Type 0 where
  unreadable : (path : List String) → IsaFailure
  raw_element : (offenders : List Offender) → IsaFailure

abbrev pub read_to_string : List String → Option String → Result IsaFailure String
read_to_string path none = err (unreadable path)
read_to_string path (some source) = ok source

-- The loop over the files, which stops at the first that cannot be read.
unfoldable pub scan_all : List Source → Result IsaFailure (List Offender)
unfolding scan
scan_all [] = ok []
scan_all (s ∷ sources) = do
  source ← read_to_string s.path s.text
  rest ← scan_all sources
  ok (scan (shown s.path) source ++ rest)

-- `check`: the number of files that it prints.
unfoldable pub check_sources : Entries → Result IsaFailure ℕ
unfolding app_sources sort scan_all
check_sources apps = do
  let files = sort (app_sources apps)
  offenders ← scan_all files
  if is_nil offenders then ok (length files) else err (raw_element offenders)
