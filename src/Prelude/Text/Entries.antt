-- ===== src/Prelude/Text/Entries.antt =====
-- The entries of a list in a text: `split(',')`, `trim`, and the filter on the empty ones.
use Prim.Native.Char.{Char, code}
use Prim.Native.String
use Prim.Native.String.{String}
use mathlib.Core.Path.{◌≡◌, refl, ap, ◌∙◌}
use mathlib.Core.Bool.{false, not, ◌&&◌}
use mathlib.Core.Logic.{inl, inr}
use mathlib.Core.List.{List, [], ◌∷◌, ◌++◌, map, map-append}
use native.Mathlib.Omega.{arith}
use text.Mathlib.TextLemmas.{nil-append, cons-append}
use rust_v.Prelude.Tests.{◌==◌, Bool-cases}
use rust_v.Prelude.Lists.{filter, filter-append, All}
use rust_v.Prelude.Text.{
  is_whitespace, is_empty, contains_char, split, cons_head, trim_start, trim_end, trim,
  trim_end_step,
}
use rust_v.Prelude.Text.Trim.{trim_idem}

unfoldable pub entries : String → List String
entries list = filter (λ s. not (is_empty s)) (map trim (split b',' list))

-- `parts.join(",")`
unfoldable pub join : List String → String
join [] = ""
join (part ∷ []) = part
join (part ∷ next ∷ parts) = String.◌++◌ part (String.◌∷◌ "," (join (next ∷ parts)))

-- What an entry is: trimmed, not empty, without a comma.
pub record IsEntry (s : String) : Type 0 where
  pub trimmed : trim s ≡ s
  pub inhabited : is_empty s ≡ false
  pub no_comma : contains_char b',' s ≡ false

split-cons : (s : String) → (q : String) × (qs : List String) × (split b',' s ≡ q ∷ qs)
unfolding split
split-cons String.[] = ("", [], refl)
split-cons (String.◌∷◌ c s) = elim (Bool-cases (code c == b',')) [
  | inl comma ↦ ("", split b',' s, rw comma)
  | inr plain ↦ let (q, qs, e) = split-cons s in (String.◌∷◌ c q, qs, rw (plain, e))
]

-- A comma, and the text before it, put the entries of that text before the others.
split-append :
    (p s : String) → split b',' (String.◌++◌ p (String.◌∷◌ "," s)) ≡ split b',' p ++ split b',' s
unfolding split
split-append String.[] s = rw nil-append refl
split-append (String.◌∷◌ c p) s = elim (Bool-cases (code c == b',')) [
  | inl comma ↦ rw (cons-append, comma) (ap (λ (l : List String). "" ∷ l) (split-append p s))
  | inr plain ↦ let (q, qs, e) = split-cons p in rw (cons-append, plain, split-append p s, e) refl
]

pub entries-append :
    (p s : String) → entries (String.◌++◌ p (String.◌∷◌ "," s)) ≡ entries p ++ entries s
unfolding entries
entries-append p s =
    rw (split-append, map-append)
      (filter-append _ (map trim (split b',' p)) (map trim (split b',' s)))

split-plain : (s : String) → contains_char b',' s ≡ false → split b',' s ≡ s ∷ []
unfolding split contains_char
split-plain String.[] h = refl
split-plain (String.◌∷◌ c s) h = ground (arith, split-plain s)

entries-IsEntry : (s : String) → IsEntry s → entries s ≡ s ∷ []
unfolding entries
entries-IsEntry s e = rw (split-plain s e.no_comma, e.trimmed, e.inhabited) refl

-- A list of entries that is joined has these entries.
pub entries-join :
    (part : String) (parts : List String)
    → All IsEntry (part ∷ parts)
    → entries (join (part ∷ parts)) ≡ part ∷ parts
unfolding join
entries-join part [] (e, es) = entries-IsEntry part e
entries-join part (next ∷ parts) (e, es) =
    entries-append part (join (next ∷ parts))
    ∙ rw (entries-IsEntry part e, entries-join next parts es) refl

no_comma-head :
    (c : Char) (parts : List String)
    → (code c == b',') ≡ false
    → All (λ s. contains_char b',' s ≡ false) parts
    → All (λ s. contains_char b',' s ≡ false) (cons_head c parts)
unfolding contains_char
no_comma-head c [] h k = (rw h refl, tt)
no_comma-head c (p ∷ ps) h (k, ks) = (rw (h, k) refl, ks)

split-no_comma : (s : String) → All (λ p. contains_char b',' p ≡ false) (split b',' s)
unfolding split
split-no_comma String.[] = (unfold contains_char in refl, tt)
split-no_comma (String.◌∷◌ c s) = elim (Bool-cases (code c == b',')) [
  | inl comma ↦ rw comma (unfold contains_char in refl, split-no_comma s)
  | inr plain ↦ rw plain (no_comma-head c (split b',' s) plain (split-no_comma s))
]

trim_start-no_comma :
    (s : String) → contains_char b',' s ≡ false → contains_char b',' (trim_start s) ≡ false
unfolding trim_start contains_char
trim_start-no_comma String.[] h = refl
trim_start-no_comma (String.◌∷◌ c s) h = elim (Bool-cases (is_whitespace (code c))) [
  | inl white ↦ rw white (trim_start-no_comma s (ground arith))
  | inr ink ↦ rw ink h
]

trim_end_step-no_comma :
    (c : Char) (r : String)
    → (code c == b',') ≡ false
    → contains_char b',' r ≡ false
    → contains_char b',' (trim_end_step c r) ≡ false
unfolding contains_char
trim_end_step-no_comma c r h k = elim (Bool-cases (is_whitespace (code c) && is_empty r)) [
  | inl cut ↦ rw cut refl
  | inr kept ↦ rw (kept, h, k) refl
]

trim_end-no_comma :
    (s : String) → contains_char b',' s ≡ false → contains_char b',' (trim_end s) ≡ false
unfolding trim_end contains_char
trim_end-no_comma String.[] h = refl
trim_end-no_comma (String.◌∷◌ c s) h =
    trim_end_step-no_comma c (trim_end s) (ground arith) (trim_end-no_comma s (ground arith))

kept-IsEntry :
    (parts : List String)
    → All (λ p. contains_char b',' p ≡ false) parts
    → All IsEntry (filter (λ s. not (is_empty s)) (map trim parts))
kept-IsEntry [] h = tt
kept-IsEntry (p ∷ ps) (h, hs) = elim (Bool-cases (is_empty (trim p))) [
  | inl gone ↦ rw gone (kept-IsEntry ps hs)
  | inr kept ↦ rw kept (
    record {
      trimmed = trim_idem p;
      inhabited = kept;
      no_comma = unfold trim in trim_end-no_comma (trim_start p) (trim_start-no_comma p h);
    },
    kept-IsEntry ps hs,
  )
]

pub entries-All : (list : String) → All IsEntry (entries list)
unfolding entries
entries-All list = kept-IsEntry (split b',' list) (split-no_comma list)
