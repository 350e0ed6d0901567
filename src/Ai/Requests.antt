-- ===== src/Ai/Requests.antt =====
-- crates/rv2-ai/src/lib.rs: which requests can be built.
use rust_v.Prelude.{
  ℕ, ◌<◌, ◌≤◌, String, ◌≡◌, ◌≢◌, ◌↔◌, inl, inr, refl, false, Bool-cases, List, [], ◌∷◌, map, All,
  ok, Result-cases, arith,
}
use rust_v.Prelude.Text.{trim, is_empty}
use rust_v.Ai.{
  DataBoundary, remote_with_explicit_consent, FactSensitivity, GroundedFact, GenerationRequest,
  hard_max_output_chars, member, must_stay, check_facts, bad_budget, build,
}
use rust_v.Ai.Distinct.{IsFresh, IsDistinct, IsFresh-IsDistinct}

abbrev pub ids_of : List GroundedFact → List String
ids_of facts = map (λ (f : GroundedFact). f.id) facts

-- Each fact may cross the boundary: none is to stay on the device of a remote request.
abbrev pub MayTravel : DataBoundary → List GroundedFact → Type 0
MayTravel boundary facts =
    All (λ f. boundary ≡ remote_with_explicit_consent → f.sensitivity ≢ FactSensitivity.local_only)
      facts

must_stay_iff :
    (b : DataBoundary) (s : FactSensitivity)
    → (must_stay b s ≡ false) ↔ (b ≡ remote_with_explicit_consent → s ≢ FactSensitivity.local_only)
must_stay_iff DataBoundary.local_only s = (λ h e. absurd (ground arith), λ h. refl)
must_stay_iff remote_with_explicit_consent FactSensitivity.local_only =
    (λ h e k. cc, λ h. absurd (h refl refl))
must_stay_iff remote_with_explicit_consent FactSensitivity.public = (λ h e k. cc, λ h. refl)
must_stay_iff remote_with_explicit_consent FactSensitivity.customer_provided =
    (λ h e k. cc, λ h. refl)

check_facts_iff :
    (boundary : DataBoundary) (seen : List String) (facts : List GroundedFact)
    → (check_facts boundary seen facts ≡ ok tt)
      ↔ (IsFresh seen (ids_of facts) × MayTravel boundary facts)
unfolding check_facts
check_facts_iff boundary seen [] = (λ h. (tt, tt), λ h. refl)
check_facts_iff boundary seen (fact ∷ facts) =
    let (to, from) = check_facts_iff boundary (fact.id ∷ seen) facts in
    let (go_to, go_from) = must_stay_iff boundary fact.sensitivity in
    elim (Bool-cases (member fact.id seen)) [
      | inl dup ↦ (λ h. absurd (ground arith), λ h. absurd (ground arith))
      | inr new ↦ elim (Bool-cases (must_stay boundary fact.sensitivity)) [
        | inl stay ↦ (λ h. absurd (ground arith), λ h. absurd (ground (arith, go_from h.1.0)))
        | inr go ↦ (
          λ h. let k = to (rw (new, go) at h) in ((new, k.0), (go_to go, k.1)),
          λ h. rw (new, go) (from (h.0.1, h.1.1)),
        )
      ]
    ]

-- What `build` demands of its arguments.
pub record IsBuildable (instruction : String) (facts : List GroundedFact) (max_chars : ℕ)
    (boundary : DataBoundary) : Type 0 where
  pub instructed : is_empty (trim instruction) ≡ false
  pub grounded : facts ≢ []
  pub positive : 0 < max_chars
  pub within : max_chars ≤ hard_max_output_chars
  pub distinct : IsDistinct (ids_of facts)
  pub may_travel : MayTravel boundary facts

-- A request is built exactly when the instruction is not blank, there are facts, the budget lies
-- between 1 and the hard maximum, the facts' ids are distinct, and no fact that must stay on the
-- device is in a remote request; it then has the trimmed instruction and the rest as it was given.
pub build_iff :
    (instruction : String) (facts : List GroundedFact) (max_chars : ℕ) (boundary : DataBoundary)
    (r : GenerationRequest)
    → (build instruction facts max_chars boundary ≡ ok r) ↔ (
        (r ≡ record {
          instruction = trim instruction;
          facts = facts;
          max_output_chars = max_chars;
          data_boundary = boundary;
        })
        × IsBuildable instruction facts max_chars boundary)
unfolding build
build_iff instruction [] max_chars boundary r = elim (Bool-cases (is_empty (trim instruction))) [
  | inl blank ↦ (λ h. absurd (ground arith), λ h. absurd (h.1.grounded refl))
  | inr said ↦ (λ h. absurd (ground arith), λ h. absurd (h.1.grounded refl))
]
build_iff instruction (fact ∷ facts) max_chars boundary r =
    let (checked, passes) = check_facts_iff boundary [] (fact ∷ facts) in
    let (to, from) = IsFresh-IsDistinct (ids_of (fact ∷ facts)) in
    elim (Bool-cases (is_empty (trim instruction))) [
      | inl blank ↦ (λ h. absurd (ground arith), λ h. absurd (ground (arith, h.1.instructed)))
      | inr said ↦ elim (Bool-cases (bad_budget max_chars)) [
        | inl bad ↦
            (λ h. absurd (ground arith), λ h. absurd (ground (arith, h.1.positive, h.1.within)))
        | inr fine ↦ elim (Result-cases (check_facts boundary [] (fact ∷ facts))) [
          | inl (u, k) ↦ (
            λ h. (
              ground arith,
              record {
                instructed = said;
                grounded = λ e. cc;
                positive = ground arith;
                within = ground arith;
                distinct = to (checked k).0;
                may_travel = (checked k).1;
              },
            ),
            λ h. ground arith,
          )
          | inr (x, k) ↦ (
            λ h. absurd (ground arith),
            λ h. absurd (ground (arith, passes (from h.1.distinct, h.1.may_travel))),
          )
        ]
      ]
    ]
