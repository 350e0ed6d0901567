-- ===== src/Api/Errors.antt =====
-- apps/api/src/infrastructure/error.rs: what of an error the client sees.
use rust_v.Prelude.{◌<◌, ◌≤◌, String, ◌≡◌, Bool, true, false, arith}
use rust_v.Api.{
  ApiError, validation, not_found, unauthenticated, forbidden, rate_limited, store, sdk, internal,
  parts, message,
}

-- The errors that carry a text of the store or of the server.
abbrev pub is_server_side : {SdkError : Type 0} → ApiError SdkError → Bool
is_server_side (store _) = true
is_server_side (sdk _) = true
is_server_side (internal _) = true
is_server_side _ = false

-- An error of the store or of the server has a status of 500 or more, and the client's message is the
-- same whatever the error's own text is. Any other error has a status between 400 and 499, and the
-- message is the error's own text.
pub message-parts :
    {SdkError : Type 0} (to_string other_string : ApiError SdkError → String)
    (e : ApiError SdkError)
    → (is_server_side e ≡ true
        → (500 ≤ (parts e).0) × (message to_string e ≡ message other_string e))
      × (is_server_side e ≡ false
          → ((400 ≤ (parts e).0) × ((parts e).0 < 500)) × (message to_string e ≡ to_string e))
unfolding parts message
message-parts f g (validation _) = ground arith
message-parts f g (not_found _) = ground arith
message-parts f g unauthenticated = ground arith
message-parts f g forbidden = ground arith
message-parts f g rate_limited = ground arith
message-parts f g (store _) = ground arith
message-parts f g (sdk _) = ground arith
message-parts f g (internal _) = ground arith
