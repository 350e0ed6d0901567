-- ===== src/Xtask/Origin/Public.antt =====
-- tooling/xtask/src/discovery.rs: which origins `parse_public_origin` lets through.
use Prim.Native.Char.{Char, code}
use Prim.Native.String
use rust_v.Prelude.{
  ℕ, String, ◌≡◌, refl, inl, inr, sym, ◌∙◌, Bool, false, ◌&&◌, ◌||◌, ok, arith, ◌==◌, Bool-cases,
  Option-cases,
}
use text.Mathlib.TextLemmas.{nil-append, cons-append}
use rust_v.Prelude.Text.{is_empty, is_whitespace}
use rust_v.Prelude.Text.Search.{
  strip_prefix, trim_end_matches, drop_end, any_char, strip_prefix-append, strip_prefix-of_append,
}
use rust_v.Xtask.Origin.{has_query, is_private, parse_public_origin}

-- A trimmed text keeps no more characters than it had.
any_char-drop_end :
    (p : ℕ → Bool) (k : ℕ) (c : Char) (r : String)
    → p (code c) ≡ false
    → any_char p r ≡ false
    → any_char p (drop_end k c r) ≡ false
unfolding any_char
any_char-drop_end p k c r h j = elim (Bool-cases (code c == k && is_empty r)) [
  | inl cut ↦ rw cut
  | inr kept ↦ rw kept (ground arith)
]

any_char-trim_end_matches :
    (p : ℕ → Bool) (k : ℕ) (s : String)
    → any_char p s ≡ false
    → any_char p (trim_end_matches k s) ≡ false
unfolding any_char trim_end_matches
any_char-trim_end_matches p k String.[] h = refl
any_char-trim_end_matches p k (String.◌∷◌ c s) h =
    any_char-drop_end p k c (trim_end_matches k s) (ground arith)
      (any_char-trim_end_matches p k s (ground arith))

drop_end_idem :
    (k : ℕ) (c : Char) (r : String)
    → trim_end_matches k r ≡ r
    → trim_end_matches k (drop_end k c r) ≡ drop_end k c r
unfolding trim_end_matches
drop_end_idem k c r e = elim (Bool-cases (code c == k && is_empty r)) [
  | inl cut ↦ rw cut
  | inr kept ↦ rw kept (rw (e, kept))
]

trim_end_matches_idem :
    (k : ℕ) (s : String) → trim_end_matches k (trim_end_matches k s) ≡ trim_end_matches k s
unfolding trim_end_matches
trim_end_matches_idem k String.[] = refl
trim_end_matches_idem k (String.◌∷◌ c s) =
    drop_end_idem k c (trim_end_matches k s) (trim_end_matches_idem k s)

any_char-split :
    (p : ℕ → Bool) (s t : String) → any_char p (String.◌++◌ s t) ≡ (any_char p s || any_char p t)
unfolding any_char
any_char-split p String.[] t = rw (nil-append t)
any_char-split p (String.◌∷◌ c s) t = rw cons-append (ground (arith, any_char-split p s t))

-- What an accepted origin is: `https://` and an authority that is public.
pub record IsPublicOrigin (origin authority : String) : Type 0 where
  pub shape : origin ≡ String.◌++◌ "https://" authority
  pub public : is_private authority ≡ false
  pub no_slash : trim_end_matches b'/' authority ≡ authority
  pub no_white : any_char is_whitespace authority ≡ false
  pub no_query : has_query authority ≡ false

module _ (name value origin : String) (accepted : parse_public_origin name value ≡ ok origin) where
  accepted-parts :
      (rest : String) × (value ≡ String.◌++◌ "https://" rest)
      × (any_char is_whitespace value ≡ false)
      × (has_query value ≡ false)
      × (is_private (trim_end_matches b'/' rest) ≡ false)
      × (origin ≡ String.◌++◌ "https://" (trim_end_matches b'/' rest))
  unfolding parse_public_origin
  accepted-parts = elim (Option-cases (strip_prefix "https://" value)) [
    | inl other ↦ absurd (ground arith)
    | inr (rest, h) ↦ (
      rest,
      strip_prefix-append "https://" value rest h,
      ground arith,
      ground arith,
      ground arith,
      ground arith,
    )
  ]

-- What `https://` and a text have of a kind of characters, the text has, if the scheme has none.
any_char-scheme :
    (p : ℕ → Bool) (rest : String)
    → any_char p "https://" ≡ false
    → any_char p (String.◌++◌ "https://" rest) ≡ any_char p rest
any_char-scheme p rest h = any_char-split p "https://" rest ∙ rw h

scheme_clean : (any_char is_whitespace "https://" ≡ false) × (has_query "https://" ≡ false)
unfolding any_char is_whitespace has_query
scheme_clean = (refl, refl)

has_query-scheme : (rest : String) → has_query (String.◌++◌ "https://" rest) ≡ has_query rest
unfolding has_query
has_query-scheme rest = any_char-scheme (λ c. c == b'?' || c == b'#') rest scheme_clean.1

has_query-trim_end_matches :
    (k : ℕ) (s : String) → has_query s ≡ false → has_query (trim_end_matches k s) ≡ false
unfolding has_query
has_query-trim_end_matches k s h = any_char-trim_end_matches (λ c. c == b'?' || c == b'#') k s h

IsPublicOrigin-accepted :
    (name origin authority : String)
    → IsPublicOrigin origin authority
    → parse_public_origin name origin ≡ ok origin
unfolding parse_public_origin
IsPublicOrigin-accepted name origin authority o = rw (
  o.shape,
  strip_prefix-of_append "https://" authority,
  any_char-scheme is_whitespace authority scheme_clean.0,
  has_query-scheme authority,
  o.no_white,
  o.no_query,
  o.no_slash,
  o.public,
)

-- What `parse_public_origin` lets through is `https://` and an authority that is not empty, local,
-- reserved or with a slash, a white character, `?` or `#`, and which is the value's but for slashes
-- at its end; and, parsed again under any name, it is let through as it stands.
parse_public_origin_sound :
    (name other value origin : String)
    → parse_public_origin name value ≡ ok origin
    → (authority : String) × IsPublicOrigin origin authority
      × ((rest : String) × (value ≡ String.◌++◌ "https://" rest)
          × (authority ≡ trim_end_matches b'/' rest))
      × (parse_public_origin other origin ≡ ok origin)
parse_public_origin_sound name other value origin accepted =
    let (rest, whole, white, query, public, shape) = accepted-parts name value origin accepted in
    let authority = trim_end_matches b'/' rest in
    let is_public : IsPublicOrigin origin authority = record {
      shape = shape;
      public = public;
      no_slash = trim_end_matches_idem b'/' rest;
      no_white =
          any_char-trim_end_matches is_whitespace b'/' rest
            (sym (any_char-scheme is_whitespace rest scheme_clean.0) ∙ rw whole at white);
      no_query =
          has_query-trim_end_matches b'/' rest (sym (has_query-scheme rest) ∙ rw whole at query);
    } in
    (
      authority,
      is_public,
      (rest, whole, refl),
      IsPublicOrigin-accepted other origin authority is_public,
    )
