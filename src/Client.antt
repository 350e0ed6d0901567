-- ===== src/Client.antt =====
-- crates/rv2-client/src/lib.rs: the client of the server's endpoints.
pub mod Answers
use Prim.Native.String
use rust_v.Prelude.{
  ℕ, String, Bool, true, false, ◌&&◌, Option, none, some, List, Result, ok, err, ◌==◌, leb, ltb,
  if◌then◌else◌,
}
use rust_v.Events.{Uuid}
use rust_v.ApiTypes.{
  PostView, UserView, SessionView, CreatePostRequest, UpdatePostRequest, UpdateProfileRequest,
}

pub data Method : Type 0 where
  get post patch delete : Method

-- `authed`: every request carries the browser's cookie.
pub record Request : Type 0 where
  pub method : Method
  pub url : String
  pub body : Option String
  pub with_credentials : Bool

-- What became of a request: no answer, or a status and a body that may not be readable.
pub data Exchange : Type 0 where
  no_answer : (error : String) → Exchange
  answer : (status : ℕ) → (text : Result String String) → Exchange

pub data ClientError : Type 0 where
  network : (error : String) → ClientError
  api : (status : ℕ) → (code message : String) → ClientError
  not_decoded : (error : String) → ClientError

unfoldable pub is_unauthenticated : ClientError → Bool
is_unauthenticated (api status _ _) = status == 401
is_unauthenticated _ = false

-- `(200..300).contains(&status)`
abbrev pub is_success : ℕ → Bool
is_success status = leb 200 status && ltb status 300

abbrev pub api_error : ℕ → String → Option (String × String) → ClientError
api_error status text none = api status "unexpected_response" text
api_error status text (some (code, message)) = api status code message

abbrev decoded {ℓ} : {T : Type ℓ} → Result String T → Result ClientError T
decoded (ok value) = ok value
decoded (err e) = err (not_decoded e)

abbrev or_empty : Result String String → String
or_empty (ok text) = text
or_empty (err _) = ""

-- The browser's `fetch`, and serde's decoding of an error's body: its code and its message.
module _ (parse_error : String → Option (String × String)) where
  unfoldable pub send {ℓ} :
      {T : Type ℓ} → (String → Result String T) → Exchange → Result ClientError T
  send decode (no_answer e) = err (network e)
  send decode (answer status (err e)) = err (not_decoded e)
  send decode (answer status (ok text)) =
      if is_success status
      then decoded (decode text)
      else err (api_error status text (parse_error text))

  unfoldable pub discard_body : Exchange → Result ClientError (Unit {0})
  discard_body (no_answer e) = err (network e)
  discard_body (answer status text) =
      if is_success status
      then ok tt
      else err (api_error status (or_empty text) (parse_error (or_empty text)))

abbrev pub or_signed_out : Result ClientError SessionView → Result ClientError (Option SessionView)
or_signed_out (ok session) = ok (some session)
or_signed_out (err e) = if is_unauthenticated e then ok none else err e

abbrev pub plain : Method → String → Request
plain method url = record { method = method; url = url; body = none; with_credentials = true }

abbrev with_json : Method → String → String → Request
with_json method url text = record {
  method = method;
  url = url;
  body = some text;
  with_credentials = true;
}

-- How serde writes and reads the bodies, and how an identifier is printed.
pub record Wire : Type 0 where
  pub show_uuid : Uuid → String
  pub create_body : CreatePostRequest → String
  pub update_body : UpdatePostRequest → String
  pub profile_body : UpdateProfileRequest → String
  pub sign_in_body : String → String → String
  pub read_session : String → Result String SessionView
  pub read_post : String → Result String PostView
  pub read_posts : String → Result String (List PostView)
  pub read_user : String → Result String UserView
  pub read_error : String → Option (String × String)

module _ (wire : Wire) (base : String) (fetch : Request → Exchange) where
  abbrev pub at : String → String
  at path = String.◌++◌ base path

  abbrev at_id : String → Uuid → String
  at_id path id = at (String.◌++◌ path (wire.show_uuid id))

  unfoldable pub get_session : Result ClientError (Option SessionView)
  unfolding send is_unauthenticated
  get_session =
      or_signed_out (send wire.read_error wire.read_session (fetch (plain get (at "/me"))))

  unfoldable pub sign_in : String → String → Result ClientError (Unit {0})
  unfolding discard_body
  sign_in email password =
      discard_body wire.read_error
        (fetch (with_json post (at "/auth/sign-in/email") (wire.sign_in_body email password)))

  unfoldable pub sign_out : Result ClientError (Unit {0})
  unfolding discard_body
  sign_out = discard_body wire.read_error (fetch (plain post (at "/auth/sign-out")))

  unfoldable pub list_posts : Result ClientError (List PostView)
  unfolding send
  list_posts = send wire.read_error wire.read_posts (fetch (plain get (at "/posts")))

  unfoldable pub get_post : Uuid → Result ClientError PostView
  unfolding send
  get_post id = send wire.read_error wire.read_post (fetch (plain get (at_id "/posts/" id)))

  unfoldable pub create_post : CreatePostRequest → Result ClientError PostView
  unfolding send
  create_post req =
      send wire.read_error wire.read_post
        (fetch (with_json post (at "/posts") (wire.create_body req)))

  unfoldable pub update_post : Uuid → UpdatePostRequest → Result ClientError PostView
  unfolding send
  update_post id req =
      send wire.read_error wire.read_post
        (fetch (with_json patch (at_id "/posts/" id) (wire.update_body req)))

  unfoldable pub delete_post : Uuid → Result ClientError (Unit {0})
  unfolding discard_body
  delete_post id = discard_body wire.read_error (fetch (plain delete (at_id "/posts/" id)))

  unfoldable pub get_user : Uuid → Result ClientError UserView
  unfolding send
  get_user id = send wire.read_error wire.read_user (fetch (plain get (at_id "/users/" id)))

  unfoldable pub update_profile : Uuid → UpdateProfileRequest → Result ClientError UserView
  unfolding send
  update_profile id req =
      send wire.read_error wire.read_user
        (fetch (with_json patch (at_id "/users/" id) (wire.profile_body req)))
