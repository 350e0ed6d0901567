-- ===== src/Api.antt =====
-- apps/api/src/infrastructure/error.rs: the error type of the handlers, and a handler as an action
-- on the store.
pub mod Errors
pub mod Posts
pub mod Users
pub mod Listing
pub mod RateLimit
pub mod Auth
pub mod Start
use rust_v.Prelude.{ℕ, String, Bool, Result, ok, err, if◌then◌else◌, leb}
use rust_v.Domain.{ValidationError, Validated}
use rust_v.AllSource.Writer.{AppendError}

pub data ApiError (SdkError : Type 0) : Type 0 where
  validation : ValidationError → ApiError SdkError
  not_found : (kind : String) → ApiError SdkError
  unauthenticated : ApiError SdkError
  forbidden : ApiError SdkError
  rate_limited : ApiError SdkError
  store : AppendError SdkError → ApiError SdkError
  sdk : SdkError → ApiError SdkError
  internal : String → ApiError SdkError

-- The status and the code of the response.
unfoldable pub parts : {SdkError : Type 0} → ApiError SdkError → ℕ × String
parts (validation _) = (422, "validation_failed")
parts (not_found _) = (404, "not_found")
parts unauthenticated = (401, "unauthorized")
parts forbidden = (403, "forbidden")
parts rate_limited = (429, "rate_limited")
parts (store _) = (502, "store_unavailable")
parts (sdk _) = (502, "store_unavailable")
parts (internal _) = (500, "internal_error")

-- The message that the client sees: a server error's own text (`to_string` of the error, a
-- parameter) goes to the log alone.
unfoldable pub message :
    {SdkError : Type 0} → (ApiError SdkError → String) → ApiError SdkError → String
unfolding parts
message to_string e = if leb 500 (parts e).0 then "an internal error occurred" else to_string e

-- A handler reads and changes the event store, and fails with an `ApiError`.
abbrev pub Action : Type 0 → Type 0 → Type 0 → Type 0
Action Store SdkError A = Store → Result (ApiError SdkError) A × Store

module _ {Store SdkError : Type 0} where
  abbrev continue :
      {A B : Type 0}
      → (A → Action Store SdkError B)
      → Result (ApiError SdkError) A × Store
      → Result (ApiError SdkError) B × Store
  continue f (ok a, s) = f a s
  continue f (err e, s) = (err e, s)

  infixl 5 ◌>>=◌ ◌>>◌
  abbrev pub ◌>>=◌ :
      {A B : Type 0}
      → Action Store SdkError A
      → (A → Action Store SdkError B)
      → Action Store SdkError B
  ◌>>=◌ m f s = continue f (m s)

  abbrev pub ◌>>◌ :
      {B : Type 0}
      → Action Store SdkError (Unit {0})
      → Action Store SdkError B
      → Action Store SdkError B
  m >> k = m >>= λ _. k

  abbrev pub pure : {A : Type 0} → A → Action Store SdkError A
  pure a s = (ok a, s)

  abbrev pub raise : {A : Type 0} → ApiError SdkError → Action Store SdkError A
  raise e s = (err e, s)

  -- `?` on a validated command.
  abbrev pub validated : {A : Type 0} → Validated A → Action Store SdkError A
  validated (ok a) s = (ok a, s)
  validated (err e) s = (err (validation e), s)

  abbrev appended :
      Result (AppendError SdkError) String × Store → Result (ApiError SdkError) (Unit {0}) × Store
  appended (ok _, s) = (ok tt, s)
  appended (err e, s) = (err (store e), s)

  -- `state.writer.append(&event).await?`
  abbrev pub written :
      (Store → Result (AppendError SdkError) String × Store) → Action Store SdkError (Unit {0})
  written write s = appended (write s)
