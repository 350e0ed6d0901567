-- ===== src/Api/Auth/Token.antt =====
-- apps/api/src/infrastructure/auth/middleware.rs: which token is taken from the headers.
use Prim.Native.Char.{Char, code}
use Prim.Native.String
use text.Mathlib.TextLemmas.{nil-append, cons-append}
use rust_v.Prelude.{
  ℕ, String, ◌≡◌, refl, ◌∙◌, false, Option, none, some, ◌∷◌, inl, inr, arith, ◌==◌, Bool-cases,
  Option-cases,
}
use rust_v.Prelude.Text.{is_empty, trim, split, split_once, contains_char}
use rust_v.Api.Auth.{
  Headers, filled, bearer, find_cookie, extract_token, named_or, or_cookie, trimmed, stripped,
  cookie_value,
}

split-of_append :
    (k : ℕ) (c : Char) (p s : String)
    → code c ≡ k
    → contains_char k p ≡ false
    → split k (String.◌++◌ p (String.◌∷◌ c s)) ≡ p ∷ split k s
unfolding split contains_char
split-of_append k c String.[] s e h = rw nil-append (ground arith)
split-of_append k c (String.◌∷◌ d p) s e h =
    let plain : (code d == k) ≡ false = ground arith in
    rw (cons-append, plain, split-of_append k c p s e (ground arith)) refl

filled-inhabited :
    (o : Option String) (token : String) → filled o ≡ some token → is_empty token ≡ false
filled-inhabited none token h = absurd (ground arith)
filled-inhabited (some v) token h = elim (Bool-cases (is_empty v)) [
  | inl e ↦ absurd (ground arith)
  | inr e ↦ let same : v ≡ token = ground arith in rw same at e
]

-- Not the cookie that is looked for: another name, or no `=` at all.
abbrev pub IsOther : String → String → Type 0
IsOther cookie_name part = named_or cookie_name (split_once b'=' (trim part)) none ≡ none

named_or-other :
    (cookie_name : String) (pair : Option (String × String)) (later : Option String)
    → named_or cookie_name pair none ≡ none
    → named_or cookie_name pair later ≡ later
named_or-other cookie_name none later h = refl
named_or-other cookie_name (some (name, value)) later h = ground arith

or_cookie-inhabited :
    (bearer_token cookie : Option String) (token : String)
    → or_cookie (filled bearer_token) (filled cookie) ≡ some token
    → is_empty token ≡ false
or_cookie-inhabited bearer_token cookie token h = elim (Option-cases (filled bearer_token)) [
  | inl e ↦ filled-inhabited cookie token (rw e at h)
  | inr (t, e) ↦ filled-inhabited bearer_token token (e ∙ rw e at h)
]

pub extract_token-inhabited :
    (headers : Headers) (cookie_name token : String)
    → extract_token headers cookie_name ≡ some token
    → is_empty token ≡ false
unfolding extract_token bearer
extract_token-inhabited headers cookie_name token h =
    or_cookie-inhabited (trimmed (stripped headers.authorization))
      (cookie_value cookie_name headers.cookie) token h

-- A part of the cookie header that stands before the others, and is a pair of another name or no pair,
-- has no effect on the token, whatever its name holds of the session cookie's.
extract_token-other :
    (authorization : Option String) (cookie_name part rest : String)
    → contains_char b';' part ≡ false
    → IsOther cookie_name part
    → extract_token
        (record {
          authorization = authorization;
          cookie = some (String.◌++◌ part (String.◌∷◌ ";" rest));
        })
        cookie_name
      ≡ extract_token (record { authorization = authorization; cookie = some rest }) cookie_name
unfolding extract_token bearer find_cookie
extract_token-other authorization cookie_name part rest h other =
    rw
      (
        split-of_append b';' ";" part rest refl h,
        named_or-other cookie_name (split_once b'=' (trim part))
            (find_cookie cookie_name (split b';' rest)) other,
      )
      refl
