-- ===== src/Api/Auth/Principal.antt =====
-- apps/api/src/infrastructure/auth/middleware.rs: what stands behind a principal, and how a request
-- without one is refused.
use rust_v.Prelude.{
  String, ◌≡◌, refl, sym, false, Option, none, some, Result, ok, err, bind-ok, bind-err,
  ok-injective, ◌⊎◌, inl, inr, arith, Result-cases,
}
use rust_v.Prelude.Text.{is_empty}
use rust_v.Shared.Roles.{AuthUser}
use rust_v.Api.{ApiError, unauthenticated, internal}
use rust_v.Api.Auth.{
  Headers, StoredUser, Backend, extract_token, found, present, principal_of, from_request_parts,
}
use rust_v.Api.Auth.Token.{extract_token-inhabited}

module _ (SdkError : Type 0) (backend : Backend) (headers : Headers) (cookie_name : String) where
  -- The token, the session and the user that a principal comes from.
  pub record IsAuthentic (principal : AuthUser) : Type 0 where
    pub token : String
    pub user_id : String
    pub user : StoredUser
    pub taken : extract_token headers cookie_name ≡ some token
    pub inhabited : is_empty token ≡ false
    pub session : backend.get_session token ≡ ok (some user_id)
    pub known : backend.get_user_by_id user_id ≡ ok (some user)
    pub own : principal ≡ principal_of SdkError backend user

  -- A lookup that does not find: with nothing there, or with an error of the backend.
  abbrev pub IsRefused : {A : Type 0} → Result String (Option A) → ApiError SdkError → Type 0
  IsRefused r e =
      ((r ≡ ok none) × (e ≡ unauthenticated))
      ⊎ ((message : String) × (r ≡ err message) × (e ≡ internal message))

  -- How a request is refused, by the first of the three steps that fails.
  pub data IsRefusal (e : ApiError SdkError) : Type 0 where
    no_token : extract_token headers cookie_name ≡ none → e ≡ unauthenticated → IsRefusal e
    no_session :
        (token : String)
        → extract_token headers cookie_name ≡ some token
        → IsRefused (backend.get_session token) e
        → IsRefusal e
    no_user :
        (token user_id : String)
        → extract_token headers cookie_name ≡ some token
        → backend.get_session token ≡ ok (some user_id)
        → IsRefused (backend.get_user_by_id user_id) e
        → IsRefusal e

  abbrev pub Outcome : Result (ApiError SdkError) AuthUser → Type 0
  Outcome (ok principal) = IsAuthentic principal
  Outcome (err e) = IsRefusal e

  found-ok :
      {A : Type 0} (r : Result String (Option A)) (a : A)
      → found SdkError backend r ≡ ok a
      → r ≡ ok (some a)
  found-ok (ok none) a h = absurd (ground arith)
  found-ok (ok (some b)) a h = ground arith
  found-ok (err e) a h = absurd (ground arith)

  found-err :
      {A : Type 0} (r : Result String (Option A)) (e : ApiError SdkError)
      → found SdkError backend r ≡ err e
      → IsRefused r e
  found-err (ok none) e h = inl (refl, ground arith)
  found-err (ok (some b)) e h = absurd (ground arith)
  found-err (err m) e h = inr (m, refl, ground arith)

  present-ok :
      (o : Option String) (token : String) → present SdkError backend o ≡ ok token → o ≡ some token
  present-ok none token h = absurd (ground arith)
  present-ok (some t) token h = ground arith

  present-err :
      (o : Option String) (e : ApiError SdkError)
      → present SdkError backend o ≡ err e
      → (o ≡ none) × (e ≡ unauthenticated)
  present-err none e h = (refl, ground arith)
  present-err (some t) e h = absurd (ground arith)

  from_request_parts-ok :
      (principal : AuthUser)
      → from_request_parts SdkError backend headers cookie_name ≡ ok principal
      → IsAuthentic principal
  unfolding from_request_parts
  from_request_parts-ok principal h =
      let (token, e1, h1) =
        bind-ok (present SdkError backend (extract_token headers cookie_name)) h in
      let (user_id, e2, h2) = bind-ok (found SdkError backend (backend.get_session token)) h1 in
      let (user, e3, h3) = bind-ok (found SdkError backend (backend.get_user_by_id user_id)) h2 in
      let taken = present-ok (extract_token headers cookie_name) token e1 in
      record {
        token = token;
        user_id = user_id;
        user = user;
        taken = taken;
        inhabited = extract_token-inhabited headers cookie_name token taken;
        session = found-ok (backend.get_session token) user_id e2;
        known = found-ok (backend.get_user_by_id user_id) user e3;
        own = sym (ok-injective h3);
      }

  from_request_parts-err :
      (e : ApiError SdkError)
      → from_request_parts SdkError backend headers cookie_name ≡ err e
      → IsRefusal e
  unfolding from_request_parts
  from_request_parts-err e h =
      elim (bind-err (present SdkError backend (extract_token headers cookie_name)) h) [
        | inl k ↦
            let (absent, refused) = present-err (extract_token headers cookie_name) e k in
            no_token absent refused
        | inr (token, had, k) ↦
            let taken = present-ok (extract_token headers cookie_name) token had in
            elim (bind-err (found SdkError backend (backend.get_session token)) k) [
              | inl l ↦ no_session token taken (found-err (backend.get_session token) e l)
              | inr (user_id, opened, l) ↦
                  elim (bind-err (found SdkError backend (backend.get_user_by_id user_id)) l) [
                    | inl m ↦
                        no_user token user_id taken
                          (found-ok (backend.get_session token) user_id opened)
                          (found-err (backend.get_user_by_id user_id) e m)
                    | inr (user, had_user, m) ↦ absurd (ground arith)
                  ]
            ]
      ]

  -- Whatever a request holds: if it has a principal, a token that is not empty stands in its headers,
  -- the backend has a session for that token and the user of that session, and identifier, address and
  -- roles are that user's. Else it is refused by the first of the three that fails: as not authenticated
  -- where there is no token, no session or no user, and with the backend's own error where a lookup
  -- failed.
  pub from_request_parts_outcome : Outcome (from_request_parts SdkError backend headers cookie_name)
  from_request_parts_outcome =
      elim (Result-cases (from_request_parts SdkError backend headers cookie_name)) [
        | inl (principal, e) ↦ rw e (from_request_parts-ok principal e)
        | inr (e, h) ↦ rw h (from_request_parts-err e h)
      ]
