-- ===== src/Ai.antt =====
-- crates/rv2-ai/src/lib.rs: grounded requests, and the check of a model's output.
pub mod Distinct
pub mod Requests
pub mod Drafts
use Prim.Native.String
use rust_v.Prelude.{
  ℕ, String, Bool, true, false, not, ◌&&◌, ◌||◌, List, [], ◌∷◌, map, any, Result, ok, err, ◌>>=◌,
  ltb, ◌==◌, if◌then◌else◌,
}
use rust_v.Prelude.Text.{str_eq, trim, is_empty}

abbrev pub hard_max_output_chars : ℕ
hard_max_output_chars = 16000

pub data DataBoundary : Type 0 where
  local_only remote_with_explicit_consent : DataBoundary

pub data FactSensitivity : Type 0 where
  public customer_provided local_only : FactSensitivity

pub record GroundedFact : Type 0 where
  pub id : String
  pub label : String
  pub value : String
  pub sensitivity : FactSensitivity

pub record GenerationRequest : Type 0 where
  pub instruction : String
  pub facts : List GroundedFact
  pub max_output_chars : ℕ
  pub data_boundary : DataBoundary

pub record GenerationCandidate : Type 0 where
  pub text : String
  pub cited_fact_ids : List String

pub record ReviewableDraft : Type 0 where
  pub text : String
  pub cited_fact_ids : List String

pub data AiContractError : Type 0 where
  empty : String → AiContractError
  missing_facts : AiContractError
  duplicate_fact_id : String → AiContractError
  invalid_output_budget : (requested hard_max : ℕ) → AiContractError
  local_only_fact_in_remote_request : String → AiContractError
  draft_too_long : (actual max : ℕ) → AiContractError
  missing_citations : AiContractError
  unknown_citation : String → AiContractError
  duplicate_citation : String → AiContractError

not_empty : String → String → Result AiContractError String
not_empty name value = if is_empty value then err (empty name) else ok value

unfoldable pub required : String → String → Result AiContractError String
unfolding not_empty
required name value = not_empty name (trim value)

unfoldable pub new_fact :
    String → String → String → FactSensitivity → Result AiContractError GroundedFact
new_fact id label value sensitivity = do
  fact_id ← required "fact.id" id
  fact_label ← required "fact.label" label
  fact_value ← required "fact.value" value
  ok (record { id = fact_id; label = fact_label; value = fact_value; sensitivity = sensitivity })

-- `BTreeSet::contains`; a set is the list of its elements.
abbrev pub member : String → List String → Bool
member s set = any (λ t. str_eq s t) set

-- `data_boundary == Remote && fact.sensitivity == LocalOnly`
abbrev pub must_stay : DataBoundary → FactSensitivity → Bool
must_stay remote_with_explicit_consent FactSensitivity.local_only = true
must_stay _ _ = false

-- The loop of `build` over the facts; `ids` are those that were inserted.
unfoldable pub check_facts :
    DataBoundary → List String → List GroundedFact → Result AiContractError (Unit {0})
check_facts boundary ids [] = ok tt
check_facts boundary ids (fact ∷ facts) =
    let rest = check_facts boundary (fact.id ∷ ids) facts in
    if member fact.id ids
    then err (duplicate_fact_id fact.id)
    else if must_stay boundary fact.sensitivity
    then err (local_only_fact_in_remote_request fact.id)
    else rest

abbrev no_facts : List GroundedFact → Bool
no_facts [] = true
no_facts _ = false

abbrev bad_budget : ℕ → Bool
bad_budget n = n == 0 || ltb hard_max_output_chars n

build_checked :
    String → List GroundedFact → ℕ → DataBoundary → Result AiContractError GenerationRequest
unfolding check_facts
build_checked instruction facts max_chars boundary =
    if no_facts facts
    then err missing_facts
    else if bad_budget max_chars
    then err (invalid_output_budget max_chars hard_max_output_chars)
    else do
      _ ← check_facts boundary [] facts
      ok (record {
        instruction = instruction;
        facts = facts;
        max_output_chars = max_chars;
        data_boundary = boundary;
      })

unfoldable pub build :
    String → List GroundedFact → ℕ → DataBoundary → Result AiContractError GenerationRequest
unfolding build_checked required
build instruction facts max_chars boundary = do
  trimmed ← required "instruction" instruction
  build_checked trimmed facts max_chars boundary

unfoldable pub local_request :
    String → List GroundedFact → ℕ → Result AiContractError GenerationRequest
unfolding build
local_request instruction facts max_chars =
    build instruction facts max_chars DataBoundary.local_only

unfoldable pub remote_request :
    String → List GroundedFact → ℕ → Result AiContractError GenerationRequest
unfolding build
remote_request instruction facts max_chars =
    build instruction facts max_chars remote_with_explicit_consent

-- The loop of `validate_candidate` over the citations.
unfoldable pub check_citations :
    List String → List String → List String → Result AiContractError (Unit {0})
check_citations known seen [] = ok tt
check_citations known seen (id ∷ ids) =
    let rest = check_citations known (id ∷ seen) ids in
    if not (member id known)
    then err (unknown_citation id)
    else if member id seen
    then err (duplicate_citation id)
    else rest

abbrev no_citations : List String → Bool
no_citations [] = true
no_citations _ = false

validate_text : GenerationRequest → List String → String → Result AiContractError ReviewableDraft
unfolding check_citations
validate_text request cited text =
    if ltb request.max_output_chars (String.count text)
    then err (draft_too_long (String.count text) request.max_output_chars)
    else if no_citations cited
    then err missing_citations
    else do
      _ ← check_citations (map (λ fact. fact.id) request.facts) [] cited
      ok (record { text = text; cited_fact_ids = cited })

unfoldable pub validate_candidate :
    GenerationRequest → GenerationCandidate → Result AiContractError ReviewableDraft
unfolding validate_text required
validate_candidate request candidate = do
  text ← required "candidate.text" candidate.text
  validate_text request candidate.cited_fact_ids text

-- A text that a person edited, which is not empty.
pub record EditedDraft : Type 0 where
  pub text : String

unfoldable pub new_edited : String → Result AiContractError EditedDraft
unfolding required
new_edited text = do trimmed ← required "edited_text" text; ok (record { text = trimmed })

pub data DraftDecision : Type 0 where
  accepted : DraftDecision
  edited : EditedDraft → DraftDecision
  rejected : DraftDecision
