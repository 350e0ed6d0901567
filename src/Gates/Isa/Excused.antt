-- ===== src/Gates/Isa/Excused.antt =====
-- Which lines `scan` reports, told without its loop.
use mathlib.Core.List.Memᴰ
use mathlib.Core.List.{Memᴰ}
use rust_v.Prelude.{
  ℕ, suc, ◌+◌, String, ◌≡◌, refl, ap, sym, subst, ◌∙◌, ◌≢◌, ◌↔◌, ◌⊎◌, inl, inr, true, false, ◌&&◌,
  ◌||◌, List, [], ◌∷◌, ◌++◌, Bool-cases, length, All, arith, if◌then◌else◌,
}
use rust_v.Prelude.Text.Search.{contains}
use rust_v.Prelude.Text.Lines.{lines}
use rust_v.Gates.Isa.{
  opt_out, is_comment, raw_elements, excused, is_nil, Offender, offends, offender, scan_lines, scan,
}

-- A comment with the marker, and only comments nearer than it. The nearest line comes first.
pub record IsExcused (above : List String) : Type 0 where
  pub nearer : List String
  pub marked : String
  pub farther : List String
  pub stands : above ≡ nearer ++ (marked ∷ farther)
  pub comments : All (λ (line : String). is_comment line ≡ true) nearer
  pub comment : is_comment marked ≡ true
  pub marker : contains opt_out marked ≡ true

abbrev pub turned : List String → List String → List String
turned [] above = above
turned (line ∷ before) above = turned before (line ∷ above)

-- A line of the file with a raw element and no excuse.
pub record Reported (path : String) (index : ℕ) (above file : List String) (o : Offender)
    : Type 0 where
  pub before : List String
  pub line : String
  pub after : List String
  pub stands : file ≡ before ++ (line ∷ after)
  pub raw : raw_elements line ≢ []
  pub unmarked : contains opt_out line ≡ false
  pub unexcused : IsExcused (turned before above) → ⊥
  pub shown : o ≡ offender path (index + length before) line

first-IsExcused :
    (line : String) (above : List String)
    → is_comment line ≡ true
    → contains opt_out line ≡ true
    → IsExcused (line ∷ above)
first-IsExcused line above c k = record {
  nearer = [];
  marked = line;
  farther = above;
  stands = refl;
  comments = tt;
  comment = c;
  marker = k;
}

later-IsExcused :
    (line : String) (above : List String)
    → is_comment line ≡ true
    → IsExcused above
    → IsExcused (line ∷ above)
later-IsExcused line above c e = record {
  nearer = line ∷ e.nearer;
  marked = e.marked;
  farther = e.farther;
  stands = ap (λ (l : List String). line ∷ l) e.stands;
  comments = (c, e.comments);
  comment = e.comment;
  marker = e.marker;
}

excused-step :
    (line : String) (above : List String)
    → excused (line ∷ above) ≡ (is_comment line && (contains opt_out line || excused above))
unfolding excused
excused-step line above = refl

excused-IsExcused : (above : List String) → excused above ≡ true → IsExcused above
excused-IsExcused [] h = absurd (unfold excused in cc h)
excused-IsExcused (line ∷ above) h = elim (Bool-cases (contains opt_out line)) [
  | inl k ↦ first-IsExcused line above (ground (arith, excused-step line above)) k
  | inr k ↦
      later-IsExcused line above (ground (arith, excused-step line above))
        (excused-IsExcused above (ground (arith, excused-step line above)))
]

excused-of :
    (nearer : List String) (marked : String) (farther : List String)
    → All (λ (line : String). is_comment line ≡ true) nearer
    → is_comment marked ≡ true
    → contains opt_out marked ≡ true
    → excused (nearer ++ (marked ∷ farther)) ≡ true
excused-of [] marked farther a c k = ground (arith, excused-step marked farther)
excused-of (line ∷ nearer) marked farther (first, a) c k = ground (
  arith,
  excused-step line (nearer ++ (marked ∷ farther)),
  excused-of nearer marked farther a c k,
)

excused-of_IsExcused : (above : List String) → IsExcused above → excused above ≡ true
excused-of_IsExcused above e =
    ap excused e.stands ∙ excused-of e.nearer e.marked e.farther e.comments e.comment e.marker

is_nil-cases :
    (xs : List String) → ((is_nil xs ≡ true) × (xs ≡ [])) ⊎ ((is_nil xs ≡ false) × (xs ≢ []))
is_nil-cases [] = inl (refl, refl)
is_nil-cases (x ∷ xs) = inr (refl, λ e. ground arith)

-- The test of the loop, as what it asks of the lines.
offends_iff :
    (above : List String) (line : String)
    → (offends above line ≡ true)
      ↔ ((raw_elements line ≢ []) × (contains opt_out line ≡ false) × (IsExcused above → ⊥))
unfolding offends
offends_iff above line = elim (is_nil-cases (raw_elements line)) [
  | inl (n, e) ↦ (λ h. absurd (ground arith), λ h. absurd (h.0 e))
  | inr (n, e) ↦ (
    λ h. (e, ground arith, λ x. ground (arith, excused-of_IsExcused above x)),
    λ h. elim (Bool-cases (excused above)) [
      | inl x ↦ absurd (h.2 (excused-IsExcused above x))
      | inr x ↦ rw (n, h.1, x) refl
    ],
  )
]

module _ (path : String) where
  scan_lines-cons :
      (index : ℕ) (above : List String) (line : String) (below : List String)
      → scan_lines path index above (line ∷ below) ≡ (
          if offends above line
          then offender path index line ∷ scan_lines path (index + 1) (line ∷ above) below
          else scan_lines path (index + 1) (line ∷ above) below)
  unfolding scan_lines
  scan_lines-cons index above line below = refl

  offender_shift :
      (index n : ℕ) (line : String)
      → offender path (index + 1 + n) line ≡ offender path (index + suc n) line
  offender_shift index n line =
      let e : index + 1 + n ≡ index + suc n = omega arith in ap (λ (k : ℕ). offender path k line) e

  here-Reported :
      (index : ℕ) (above : List String) (line : String) (below : List String)
      → offends above line ≡ true
      → Reported path index above (line ∷ below) (offender path index line)
  here-Reported index above line below h =
      let (r, m, x) = (offends_iff above line).0 h in
      let e : index ≡ index + 0 = omega arith in
      record {
        before = [];
        line = line;
        after = below;
        stands = refl;
        raw = r;
        unmarked = m;
        unexcused = x;
        shown = ap (λ (k : ℕ). offender path k line) e;
      }

  below-Reported :
      (index : ℕ) (above : List String) (line : String) (below : List String) (o : Offender)
      → Reported path (index + 1) (line ∷ above) below o
      → Reported path index above (line ∷ below) o
  below-Reported index above line below o r = record {
    before = line ∷ r.before;
    line = r.line;
    after = r.after;
    stands = ap (λ (l : List String). line ∷ l) r.stands;
    raw = r.raw;
    unmarked = r.unmarked;
    unexcused = r.unexcused;
    shown = r.shown ∙ offender_shift index (length r.before) r.line;
  }

  scan_lines-Reported :
      (index : ℕ) (above file : List String) (o : Offender)
      → Memᴰ o (scan_lines path index above file)
      → Reported path index above file o
  unfolding scan_lines
  scan_lines-Reported index above [] o m = absurd (Memᴰ.not-nil m)
  scan_lines-Reported index above (line ∷ below) o m =
      let next = scan_lines-Reported (index + 1) (line ∷ above) below o in
      elim (Bool-cases (offends above line)) [
        | inr h ↦
            below-Reported index above line below o
              (next (rw (scan_lines-cons index above line below, h) at m))
        | inl h ↦ elim (Memᴰ.cases_cons (rw (scan_lines-cons index above line below, h) at m)) [
          | inl e ↦
              subst (λ x. Reported path index above (line ∷ below) x) (sym e)
                (here-Reported index above line below h)
          | inr n ↦ below-Reported index above line below o (next n)
        ]
      ]

  mem-later :
      (index : ℕ) (above : List String) (line : String) (below : List String) (o : Offender)
      → Memᴰ o (scan_lines path (index + 1) (line ∷ above) below)
      → Memᴰ o (scan_lines path index above (line ∷ below))
  mem-later index above line below o m = elim (Bool-cases (offends above line)) [
    | inl h ↦ rw (scan_lines-cons index above line below, h) (Memᴰ.tail m)
    | inr h ↦ rw (scan_lines-cons index above line below, h) m
  ]

  mem-scan_lines :
      (index : ℕ) (above before : List String) (line : String) (after : List String)
      → offends (turned before above) line ≡ true
      → Memᴰ
          (offender path (index + length before) line)
          (scan_lines path index above (before ++ (line ∷ after)))
  mem-scan_lines index above [] line after h =
      let e : index + 0 ≡ index = omega arith in
      rw (scan_lines-cons index above line after, h)
        (Memᴰ.head (ap (λ (k : ℕ). offender path k line) e))
  mem-scan_lines index above (first ∷ before) line after h =
      mem-later index above first (before ++ (line ∷ after)) _ (
        Memᴰ.cast (sym (offender_shift index (length before) line))
          (mem-scan_lines (index + 1) (first ∷ above) before line after h))

-- `scan` reports exactly the lines of the file on which a raw element is opened, that do not carry
-- the marker, and above which no unbroken run of comment lines carries it; each with its number,
-- counted from one, and its text without the white space around it.
pub scan-Reported :
    (path source : String) (o : Offender)
    → Memᴰ o (scan path source) ↔ Reported path 0 [] (lines source) o
unfolding scan
scan-Reported path source o = (
  scan_lines-Reported path 0 [] (lines source) o,
  λ r.
      let h = (offends_iff (turned r.before []) r.line).1 (r.raw, r.unmarked, r.unexcused) in
      let m = mem-scan_lines path 0 [] r.before r.line r.after h in
      Memᴰ.cast r.shown (
        subst (λ l. Memᴰ (offender path (0 + length r.before) r.line) (scan_lines path 0 [] l))
          (sym r.stands) m),
)
