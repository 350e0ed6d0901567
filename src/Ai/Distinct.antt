-- ===== src/Ai/Distinct.antt =====
-- crates/rv2-ai/src/lib.rs: the loops that insert into a set find exactly the repeated texts.
use rust_v.Prelude.{
  String, ◌≡◌, ◌≢◌, ◌↔◌, refl, sym, false, List, [], ◌∷◌, All, arith, inl, inr, Bool-cases,
}
use rust_v.Prelude.Text.{str_eq, str_eq_iff}
use rust_v.Ai.{member}

abbrev pub NotIn : String → List String → Type 0
NotIn s ss = All (λ t. s ≢ t) ss

-- All texts of the list are different.
abbrev pub IsDistinct : List String → Type 0
IsDistinct [] = Unit
IsDistinct (s ∷ ss) = NotIn s ss × IsDistinct ss

-- What the loop has tested: no text is in `seen` or among those before it.
abbrev pub IsFresh : List String → List String → Type 0
IsFresh seen [] = Unit
IsFresh seen (s ∷ ss) = (member s seen ≡ false) × IsFresh (s ∷ seen) ss

pub member-NotIn : (s : String) (ss : List String) → (member s ss ≡ false) ↔ NotIn s ss
member-NotIn s [] = (λ h. tt, λ h. refl)
member-NotIn s (t ∷ ss) =
    let (to, from) = member-NotIn s ss in
    elim (Bool-cases (str_eq s t)) [
      | inl same ↦ (λ h. absurd (ground arith), λ h. absurd (h.0 ((str_eq_iff s t).0 same)))
      | inr other ↦
          (λ h. (λ e. ground (arith, str_eq_iff s t), to (rw other at h)), λ h. rw other (from h.1))
    ]

-- None of the texts is in `seen`.
abbrev AllNotIn : List String → List String → Type 0
AllNotIn seen ss = All (λ s. NotIn s seen) ss

AllNotIn-tail :
    (t : String) (seen ss : List String) → AllNotIn (t ∷ seen) ss → NotIn t ss × AllNotIn seen ss
AllNotIn-tail t seen [] h = (tt, tt)
AllNotIn-tail t seen (s ∷ ss) ((ne, here), h) =
    let (a, b) = AllNotIn-tail t seen ss h in ((λ e. ne (sym e), a), (here, b))

AllNotIn-cons :
    (t : String) (seen ss : List String) → NotIn t ss → AllNotIn seen ss → AllNotIn (t ∷ seen) ss
AllNotIn-cons t seen [] a b = tt
AllNotIn-cons t seen (s ∷ ss) (ne, a) (here, b) =
    ((λ e. ne (sym e), here), AllNotIn-cons t seen ss a b)

IsFresh-AllNotIn : (seen ss : List String) → IsFresh seen ss ↔ (IsDistinct ss × AllNotIn seen ss)
IsFresh-AllNotIn seen [] = (λ h. (tt, tt), λ h. tt)
IsFresh-AllNotIn seen (s ∷ ss) =
    let (to, from) = IsFresh-AllNotIn (s ∷ seen) ss in
    (
      λ h.
          let (d, a) = to h.1 in
          let (n, b) = AllNotIn-tail s seen ss a in ((n, d), ((member-NotIn s seen).0 h.0, b)),
      λ h. ((member-NotIn s seen).1 h.1.0, from (h.0.1, AllNotIn-cons s seen ss h.0.0 h.1.1)),
    )

AllNotIn-nil : (ss : List String) → AllNotIn [] ss
AllNotIn-nil [] = tt
AllNotIn-nil (s ∷ ss) = (tt, AllNotIn-nil ss)

pub IsFresh-IsDistinct : (ss : List String) → IsFresh [] ss ↔ IsDistinct ss
IsFresh-IsDistinct ss =
    let (to, from) = IsFresh-AllNotIn [] ss in (λ h. (to h).0, λ h. from (h, AllNotIn-nil ss))
