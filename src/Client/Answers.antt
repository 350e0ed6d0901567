-- ===== src/Client/Answers.antt =====
-- crates/rv2-client/src/lib.rs: what the client makes of the errors that the server answers with.
use rust_v.Prelude.{
  String, ◌≡◌, ◌↔◌, refl, false, Option, none, some, Result, ok, err, arith, ◌==◌, Bool-cases, inl,
  inr, ==_iff,
}
use rust_v.Api.{
  ApiError, validation, not_found, unauthenticated, forbidden, rate_limited, store, sdk, internal,
  parts, message,
}
use rust_v.Client.{
  Exchange, answer, ClientError, api, is_success, send, discard_body, Wire, get_session,
  or_signed_out, is_unauthenticated,
}

module _ {SdkError : Type 0} (to_string : ApiError SdkError → String)
    (print : String → String → String) where
  -- `ApiError::into_response`: the status, and the body with the code and the message.
  abbrev pub server_answer : ApiError SdkError → Exchange
  server_answer e = answer (parts e).0 (ok (print (parts e).1 (message to_string e)))

  -- The client's error for it.
  abbrev pub as_client : ApiError SdkError → ClientError
  as_client e = api (parts e).0 (parts e).1 (message to_string e)

  not_success : (e : ApiError SdkError) → is_success (parts e).0 ≡ false
  unfolding parts
  not_success (validation _) = refl
  not_success (not_found _) = refl
  not_success unauthenticated = refl
  not_success forbidden = refl
  not_success rate_limited = refl
  not_success (store _) = refl
  not_success (sdk _) = refl
  not_success (internal _) = refl

  status_401 : (e : ApiError SdkError) → ((parts e).0 ≡ 401) ↔ (e ≡ unauthenticated)
  unfolding parts
  status_401 (validation _) = (λ h. absurd (omega (arith, h)), λ h. absurd (ground arith))
  status_401 (not_found _) = (λ h. absurd (omega (arith, h)), λ h. absurd (ground arith))
  status_401 unauthenticated = (λ h. refl, λ h. refl)
  status_401 forbidden = (λ h. absurd (omega (arith, h)), λ h. absurd (ground arith))
  status_401 rate_limited = (λ h. absurd (omega (arith, h)), λ h. absurd (ground arith))
  status_401 (store _) = (λ h. absurd (omega (arith, h)), λ h. absurd (ground arith))
  status_401 (sdk _) = (λ h. absurd (omega (arith, h)), λ h. absurd (ground arith))
  status_401 (internal _) = (λ h. absurd (omega (arith, h)), λ h. absurd (ground arith))

  send-server_answer {ℓ} :
      {T : Type ℓ} (read_error : String → Option (String × String))
      (decode : String → Result String T) (e : ApiError SdkError)
      → read_error (print (parts e).1 (message to_string e))
        ≡ some ((parts e).1, message to_string e)
      → send read_error decode (server_answer e) ≡ err (as_client e)
  unfolding send
  send-server_answer read_error decode e law = rw (not_success e, law) refl

  discard_body-server_answer :
      (read_error : String → Option (String × String)) (e : ApiError SdkError)
      → read_error (print (parts e).1 (message to_string e))
        ≡ some ((parts e).1, message to_string e)
      → discard_body read_error (server_answer e) ≡ err (as_client e)
  unfolding discard_body
  discard_body-server_answer read_error e law = rw (not_success e, law) refl

  signed_out_iff :
      (e : ApiError SdkError)
      → (or_signed_out (err (as_client e)) ≡ ok none) ↔ (e ≡ unauthenticated)
  unfolding is_unauthenticated
  signed_out_iff e = elim (Bool-cases ((parts e).0 == 401)) [
    | inl h ↦ (λ k. (status_401 e).0 ((==_iff (parts e).0 401).0 h), λ k. rw h refl)
    | inr h ↦
        (λ k. absurd (ground (arith, rw h at k)), λ k. absurd (ground (arith, (status_401 e).1 k)))
  ]

-- Where an error's body is read back as it was written, every error of the server reaches the client
-- with its status, its code and its message, from an endpoint that answers with a value and from one
-- that does not; and the session is absent, instead of an error, exactly where the request was not
-- authenticated.
pub server_errors_agree :
    {SdkError T : Type 0} (to_string : ApiError SdkError → String)
    (print : String → String → String) (wire : Wire) (base : String)
    (decode : String → Result String T) (e : ApiError SdkError)
    → ((code text : String) → wire.read_error (print code text) ≡ some (code, text))
    → (send wire.read_error decode (server_answer to_string print e)
        ≡ err (as_client to_string print e))
      × (discard_body wire.read_error (server_answer to_string print e)
          ≡ err (as_client to_string print e))
      × ((get_session wire base (λ request. server_answer to_string print e) ≡ ok none)
          ↔ (e ≡ unauthenticated))
unfolding get_session
server_errors_agree to_string print wire base decode e law =
    let read = law (parts e).1 (message to_string e) in
    let sent = send-server_answer to_string print wire.read_error wire.read_session e read in
    (
      send-server_answer to_string print wire.read_error decode e read,
      discard_body-server_answer to_string print wire.read_error e read,
      rw sent (signed_out_iff to_string print e),
    )
