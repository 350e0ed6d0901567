-- ===== src/Xtask/Encode/Escape.antt =====
-- tooling/xtask/src/discovery.rs: the chain of replacements escapes each character once.
use Prim.Native.Char.{Char, code}
use Prim.Native.String
use rust_v.Prelude.{
  ℕ, String, ◌≡◌, refl, inl, inr, ap, ◌∙◌, Bool, true, false, ◌||◌, arith, ◌==◌, if◌then◌else◌,
  Bool-cases,
}
use text.Mathlib.TextLemmas.{nil-append, cons-append, append_assoc}
use rust_v.Prelude.Text.Search.{replace_char, any_char}
use rust_v.Xtask.Encode.{html_escape}

module _ (k : ℕ) (r : String) (c : Char) (s : String) where
  replace_char-hit :
      (code c == k) ≡ true → replace_char k r (String.◌∷◌ c s) ≡ String.◌++◌ r (replace_char k r s)
  unfolding replace_char
  replace_char-hit h = rw h

  replace_char-miss :
      (code c == k) ≡ false → replace_char k r (String.◌∷◌ c s) ≡ String.◌∷◌ c (replace_char k r s)
  unfolding replace_char
  replace_char-miss h = rw h

replace_char-nil : (k : ℕ) (r : String) → replace_char k r String.[] ≡ String.[]
unfolding replace_char
replace_char-nil k r = refl

replace_char-append :
    (k : ℕ) (r s t : String)
    → replace_char k r (String.◌++◌ s t) ≡ String.◌++◌ (replace_char k r s) (replace_char k r t)
replace_char-append k r String.[] t =
    rw (replace_char-nil, nil-append t, nil-append (replace_char k r t))
replace_char-append k r (String.◌∷◌ c s) t = elim (Bool-cases (code c == k)) [
  | inl hit ↦ rw (
    cons-append,
    replace_char-hit k r c (String.◌++◌ s t) hit,
    replace_char-hit k r c s hit,
    replace_char-append k r s t,
    append_assoc,
  )
  | inr miss ↦ rw (
    cons-append,
    replace_char-miss k r c (String.◌++◌ s t) miss,
    replace_char-miss k r c s miss,
    replace_char-append k r s t,
    cons-append,
  )
]

cons-nil-append : (c : Char) (s : String) → String.◌∷◌ c s ≡ String.◌++◌ (String.◌∷◌ c String.[]) s
cons-nil-append c s = rw (cons-append, nil-append s)

html_escape-append :
    (s t : String) → html_escape (String.◌++◌ s t) ≡ String.◌++◌ (html_escape s) (html_escape t)
unfolding html_escape
html_escape-append s t = simp replace_char-append

-- What a character becomes.
abbrev pub escaped : Char → String
escaped c =
    if code c == b'&'
    then "&amp;"
    else if code c == b'<'
    then "&lt;"
    else if code c == b'>'
    then "&gt;"
    else if code c == b'"'
    then "&quot;"
    else if code c == b'\''
    then "&#39;"
    else String.◌∷◌ c String.[]

unfoldable pub escape_each : String → String
escape_each String.[] = String.[]
escape_each (String.◌∷◌ c s) = String.◌++◌ (escaped c) (escape_each s)

html_escape-char : (c : Char) → html_escape (String.◌∷◌ c String.[]) ≡ escaped c
unfolding html_escape replace_char
html_escape-char c = elim (Bool-cases (code c == b'&')) [
  | inl h ↦ rw h
  | inr h ↦ rw h (elim (Bool-cases (code c == b'<')) [
    | inl k ↦ rw k
    | inr k ↦ rw k (elim (Bool-cases (code c == b'>')) [
      | inl l ↦ rw l
      | inr l ↦ rw l (elim (Bool-cases (code c == b'"')) [
        | inl m ↦ rw m
        | inr m ↦ rw m (elim (Bool-cases (code c == b'\'')) [ inl n ↦ rw n | inr n ↦ rw n ])
      ])
    ])
  ])
]

html_escape-escape_each : (s : String) → html_escape s ≡ escape_each s
html_escape-escape_each String.[] = unfold html_escape replace_char escape_each in refl
html_escape-escape_each (String.◌∷◌ c s) = escape-cons c s (html_escape-escape_each s)
  where
    escape-cons :
        (c : Char) (s : String)
        → html_escape s ≡ escape_each s
        → html_escape (String.◌∷◌ c s) ≡ escape_each (String.◌∷◌ c s)
    escape-cons c s ih =
        ap html_escape (cons-nil-append c s)
        ∙ html_escape-append (String.◌∷◌ c String.[]) s
        ∙ rw (html_escape-char c, ih) (unfold escape_each in refl)

abbrev pub is_markup : ℕ → Bool
is_markup c = c == b'<' || c == b'>' || c == b'"' || c == b'\''

any_char-append :
    (p : ℕ → Bool) (s t : String)
    → any_char p s ≡ false
    → any_char p t ≡ false
    → any_char p (String.◌++◌ s t) ≡ false
unfolding any_char
any_char-append p String.[] t h k = rw (nil-append t) k
any_char-append p (String.◌∷◌ c s) t h k = rw cons-append (ground (arith, any_char-append p s t))

escaped-clean : (c : Char) → any_char is_markup (escaped c) ≡ false
unfolding any_char
escaped-clean c = elim (Bool-cases (code c == b'&')) [
  | inl h ↦ rw h
  | inr h ↦ rw h (elim (Bool-cases (code c == b'<')) [
    | inl k ↦ rw k
    | inr k ↦ rw k (elim (Bool-cases (code c == b'>')) [
      | inl l ↦ rw l
      | inr l ↦ rw l (elim (Bool-cases (code c == b'"')) [
        | inl m ↦ rw m
        | inr m ↦
            rw m (elim (Bool-cases (code c == b'\'')) [
              | inl n ↦ rw n
              | inr n ↦ rw n (rw (k, l, m, n))
            ])
      ])
    ])
  ])
]

escape_each-clean : (s : String) → any_char is_markup (escape_each s) ≡ false
escape_each-clean String.[] = unfold any_char escape_each in refl
escape_each-clean (String.◌∷◌ c s) = clean-cons c s (escape_each-clean s)
  where
    clean-cons :
        (c : Char) (s : String)
        → any_char is_markup (escape_each s) ≡ false
        → any_char is_markup (escape_each (String.◌∷◌ c s)) ≡ false
    clean-cons c s ih =
        unfold escape_each in
        any_char-append is_markup (escaped c) (escape_each s) (escaped-clean c) ih

-- The chain of replacements, which begins with the ampersand, is the escaping of each character by
-- itself: no replacement touches what an earlier one wrote. The result holds no `<`, `>`, `"` or `'`.
html_escape_correct :
    (s : String) → (html_escape s ≡ escape_each s) × (any_char is_markup (html_escape s) ≡ false)
html_escape_correct s =
    (html_escape-escape_each s, rw (html_escape-escape_each s) (escape_each-clean s))
