-- ===== src/Tests/Rules.antt =====
-- The domain's commands and the rules of the generated drafts on concrete requests.
use rust_v.Prelude.{◌≡◌, ◌↔◌, refl, [], ◌∷◌, ok}
use rust_v.Prelude.Text.{trim}
use rust_v.Domain.{non_empty_bounded}
use rust_v.Ai.{
  local_only, remote_with_explicit_consent, FactSensitivity, GroundedFact, GenerationRequest,
  GenerationCandidate, ReviewableDraft, build, validate_candidate,
}
use rust_v.Ai.Requests.{IsBuildable, build_iff}
use rust_v.Ai.Drafts.{IsGrounded, validate_candidate_iff}

bounded-run : non_empty_bounded "title" " a title " 9 ≡ ok "a title"
unfolding non_empty_bounded trim
bounded-run = refl

abbrev fact : GroundedFact
fact = record {
  id = "order";
  label = "Order";
  value = "42";
  sensitivity = FactSensitivity.customer_provided;
}

abbrev request : GenerationRequest
request = record {
  instruction = "Answer.";
  facts = fact ∷ [];
  max_output_chars = 80;
  data_boundary = local_only;
}

abbrev candidate : GenerationCandidate
candidate = record { text = " It is on its way. "; cited_fact_ids = "order" ∷ [] }

abbrev draft : ReviewableDraft
draft = record { text = "It is on its way."; cited_fact_ids = "order" ∷ [] }

build_iff_example :
    (build " Answer. " (fact ∷ []) 80 remote_with_explicit_consent
      ≡ ok (record request { data_boundary = remote_with_explicit_consent }))
    ↔ ((record request { data_boundary = remote_with_explicit_consent } ≡ record {
      instruction = trim " Answer. ";
      facts = fact ∷ [];
      max_output_chars = 80;
      data_boundary = remote_with_explicit_consent;
    })
        × IsBuildable " Answer. " (fact ∷ []) 80 remote_with_explicit_consent)
build_iff_example =
    build_iff " Answer. " (fact ∷ []) 80 remote_with_explicit_consent
      (record request { data_boundary = remote_with_explicit_consent })

validate_candidate_iff_example : (validate_candidate request candidate ≡ ok draft) ↔ (
    (draft ≡ record { text = trim candidate.text; cited_fact_ids = candidate.cited_fact_ids })
    × IsGrounded request candidate)
validate_candidate_iff_example = validate_candidate_iff request candidate draft

validate_candidate_run : validate_candidate request candidate ≡ ok draft
unfolding validate_candidate trim
validate_candidate_run = refl
