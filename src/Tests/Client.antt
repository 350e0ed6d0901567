-- ===== src/Tests/Client.antt =====
-- The client over a wire on which an error's body is read back as it was written.
use Prim.Native.Char.{code}
use rust_v.Prelude.{
  false, String, ◌≡◌, ◌↔◌, refl, Option, none, some, [], ok, err, ◌==◌, if◌then◌else◌,
}
use rust_v.Prelude.Text.{cons_fst}
use rust_v.Api.{ApiError, unauthenticated}
use rust_v.Client.{Wire, send, discard_body, get_session, Request, Exchange, answer, plain, get, at}
use rust_v.Views.{stays, replaces, login, shell_effect, PostsPage, opened}
use rust_v.Views.Redirect.{IsSignedOut, get_session-IsSignedOut}
use rust_v.Client.Answers.{server_answer, as_client, server_errors_agree}

-- Each character of the code behind an `x`, and the message behind a `y`.
abbrev print_error : String → String → String
print_error String.[] text = String.◌∷◌ "y" text
print_error (String.◌∷◌ c rest) text = String.◌∷◌ "x" (String.◌∷◌ c (print_error rest text))

abbrev read_error : String → Option (String × String)
read_error String.[] = none
read_error (String.◌∷◌ mark String.[]) = if code mark == b'y' then some ("", "") else none
read_error (String.◌∷◌ mark (String.◌∷◌ c s)) =
    let rest = cons_fst c (read_error s) in
    if code mark == b'y' then some ("", String.◌∷◌ c s) else rest

read_error-print_error :
    (name text : String) → read_error (print_error name text) ≡ some (name, text)
read_error-print_error String.[] String.[] = refl
read_error-print_error String.[] (String.◌∷◌ c s) = refl
read_error-print_error (String.◌∷◌ c name) text = rw (read_error-print_error name text) refl

abbrev wire : Wire
wire = record {
  show_uuid = λ id. "1";
  create_body = λ req. "";
  update_body = λ req. "";
  profile_body = λ req. "";
  sign_in_body = λ email password. "";
  read_session = λ text. err "no session";
  read_post = λ text. err "no post";
  read_posts = λ text. ok [];
  read_user = λ text. err "no user";
  read_error = read_error;
}

abbrev say : ApiError (Unit {0}) → String
say e = "refused"

server_errors_agree_example :
    (send wire.read_error wire.read_post (server_answer say print_error unauthenticated)
      ≡ err (as_client say print_error unauthenticated))
    × (discard_body wire.read_error (server_answer say print_error unauthenticated)
        ≡ err (as_client say print_error unauthenticated))
    × ((get_session wire "http://api" (λ request. server_answer say print_error unauthenticated)
          ≡ ok none)
        ↔ (◌≡◌ {A = ApiError (Unit {0})} unauthenticated unauthenticated))
server_errors_agree_example =
    server_errors_agree say print_error wire "http://api" wire.read_post unauthenticated
      read_error-print_error

abbrev signed_out : Request → Exchange
signed_out request = answer 401 (ok "")

get_session-IsSignedOut_example :
    (((shell_effect none (some (get_session wire "http://api" signed_out))).1 ≡ replaces login)
      ↔ IsSignedOut (signed_out (plain get (at wire "http://api" signed_out "/me"))))
    × ((shell_effect none none).1 ≡ stays)
get_session-IsSignedOut_example = get_session-IsSignedOut wire "http://api" signed_out none

abbrev titled : PostsPage
titled = record opened { title = "On engines" }

-- A browser that submits the form while its button is enabled.
abbrev Submits : PostsPage → Type 0
Submits page = page.submitting ≡ false
