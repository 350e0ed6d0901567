-- ===== src/Ai/Drafts.antt =====
-- crates/rv2-ai/src/lib.rs: what every draft that was accepted guarantees.
use Prim.Native.String
use rust_v.Prelude.{
  ◌≤◌, String, ◌≡◌, ◌≢◌, ◌↔◌, inl, inr, refl, true, false, Bool-cases, List, [], ◌∷◌, All, ok,
  Result-cases, arith, ltb,
}
use rust_v.Prelude.Text.{trim, is_empty}
use rust_v.Ai.{
  GenerationRequest, GenerationCandidate, ReviewableDraft, member, check_citations,
  validate_candidate,
}
use rust_v.Ai.Distinct.{IsFresh, IsDistinct, IsFresh-IsDistinct}
use rust_v.Ai.Requests.{ids_of}

-- Every text of the list is one of the known ones.
abbrev pub AllKnown : List String → List String → Type 0
AllKnown known ids = All (λ id. member id known ≡ true) ids

check_citations_iff :
    (known seen ids : List String)
    → (check_citations known seen ids ≡ ok tt) ↔ (AllKnown known ids × IsFresh seen ids)
unfolding check_citations
check_citations_iff known seen [] = (λ h. (tt, tt), λ h. refl)
check_citations_iff known seen (id ∷ ids) =
    let (to, from) = check_citations_iff known (id ∷ seen) ids in
    elim (Bool-cases (member id known)) [
      | inr unknown ↦ (λ h. absurd (ground arith), λ h. absurd (ground arith))
      | inl cited ↦ elim (Bool-cases (member id seen)) [
        | inl dup ↦ (λ h. absurd (ground arith), λ h. absurd (ground arith))
        | inr new ↦ (
          λ h. let k = to (rw (cited, new) at h) in ((cited, k.0), (new, k.1)),
          λ h. rw (cited, new) (from (h.0.1, h.1.1)),
        )
      ]
    ]

-- What `validate_candidate` demands of a candidate.
pub record IsGrounded (request : GenerationRequest) (candidate : GenerationCandidate) : Type 0 where
  pub written : is_empty (trim candidate.text) ≡ false
  pub within : String.count (trim candidate.text) ≤ request.max_output_chars
  pub cites : candidate.cited_fact_ids ≢ []
  pub known : AllKnown (ids_of request.facts) candidate.cited_fact_ids
  pub distinct : IsDistinct candidate.cited_fact_ids

validate_iff :
    (request : GenerationRequest) (text : String) (cited : List String) (d : ReviewableDraft)
    → (validate_candidate request (record { text = text; cited_fact_ids = cited }) ≡ ok d) ↔ (
        (d ≡ record { text = trim text; cited_fact_ids = cited })
        × IsGrounded request (record { text = text; cited_fact_ids = cited }))
unfolding validate_candidate
validate_iff request text [] d = elim (Bool-cases (is_empty (trim text))) [
  | inl blank ↦ (λ h. absurd (ground arith), λ h. absurd (h.1.cites refl))
  | inr said ↦ (λ h. absurd (ground arith), λ h. absurd (h.1.cites refl))
]
validate_iff request text (id ∷ ids) d =
    let (checked, passes) = check_citations_iff (ids_of request.facts) [] (id ∷ ids) in
    let (to, from) = IsFresh-IsDistinct (id ∷ ids) in
    elim (Bool-cases (is_empty (trim text))) [
      | inl blank ↦ (λ h. absurd (ground arith), λ h. absurd (ground (arith, h.1.written)))
      | inr said ↦ elim (Bool-cases (ltb request.max_output_chars (String.count (trim text)))) [
        | inl long ↦ (λ h. absurd (ground arith), λ h. absurd (ground (arith, h.1.within)))
        | inr fits ↦ elim (Result-cases (check_citations (ids_of request.facts) [] (id ∷ ids))) [
          | inl (u, k) ↦ (
            λ h. (
              ground arith,
              record {
                written = said;
                within = ground arith;
                cites = λ e. cc;
                known = (checked k).0;
                distinct = to (checked k).1;
              },
            ),
            λ h. ground arith,
          )
          | inr (x, k) ↦ (
            λ h. absurd (ground arith),
            λ h. absurd (ground (arith, passes (h.1.known, from h.1.distinct))),
          )
        ]
      ]
    ]

-- A candidate becomes a draft exactly when its text is not blank and within the request's budget,
-- and it cites at least one fact, only facts of the request, and none twice; the draft has the
-- trimmed text and the citations as they were given.
pub validate_candidate_iff :
    (request : GenerationRequest) (candidate : GenerationCandidate) (d : ReviewableDraft)
    → (validate_candidate request candidate ≡ ok d) ↔ (
        (d ≡ record { text = trim candidate.text; cited_fact_ids = candidate.cited_fact_ids })
        × IsGrounded request candidate)
validate_candidate_iff request candidate d =
    validate_iff request candidate.text candidate.cited_fact_ids d
