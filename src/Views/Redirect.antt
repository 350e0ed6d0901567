-- ===== src/Views/Redirect.antt =====
-- When the shell of the app leaves for the login page.
use rust_v.Prelude.{
  ℕ, String, ◌≡◌, refl, ap, sym, ◌∙◌, ◌↔◌, inl, inr, true, Option, none, some, Result, ok, err,
  ◌==◌, ==_iff, Bool-cases, Result-cases, arith,
}
use rust_v.ApiTypes.{SessionView}
use rust_v.Client.{
  ClientError, Wire, Request, Exchange, no_answer, answer, get, plain, at, get_session, send,
  or_signed_out, api_error, is_unauthenticated, is_success,
}
use rust_v.Views.{Navigation, stays, replaces, login, shell_effect}

-- The server's answer says that nobody is signed in.
pub data IsSignedOut : Exchange → Type 0 where
  unauthenticated :
      (status : ℕ) (text : String) → status ≡ 401 → IsSignedOut (answer status (ok text))

abbrev navigates :
    Option SessionView → Option (Result ClientError (Option SessionView)) → Navigation
navigates session held = (shell_effect session held).1

api_error-status :
    (status : ℕ) (text : String) (error : Option (String × String))
    → is_unauthenticated (api_error status text error) ≡ (status == 401)
unfolding is_unauthenticated
api_error-status status text none = refl
api_error-status status text (some (code, message)) = refl

leaves :
    (session : Option SessionView) (r : Result ClientError SessionView)
    → navigates session (some (or_signed_out r)) ≡ replaces login
    → (e : ClientError) × (r ≡ err e) × (is_unauthenticated e ≡ true)
unfolding shell_effect
leaves session (ok view) h = absurd (ground arith)
leaves session (err e) h = elim (Bool-cases (is_unauthenticated e)) [
  | inl u ↦ (e, refl, u)
  | inr u ↦ absurd (ground arith)
]

leaves-of :
    (session : Option SessionView) (e : ClientError)
    → is_unauthenticated e ≡ true
    → navigates session (some (or_signed_out (err e))) ≡ replaces login
unfolding shell_effect
leaves-of session e h = rw h refl

-- Only an answer with the status 401 and a readable body is an error of that kind.
unauthenticated-IsSignedOut :
    (wire : Wire) (exchange : Exchange) (e : ClientError)
    → send wire.read_error wire.read_session exchange ≡ err e
    → is_unauthenticated e ≡ true
    → IsSignedOut exchange
unfolding send is_unauthenticated
unauthenticated-IsSignedOut wire (no_answer f) e h u = absurd (ground arith)
unauthenticated-IsSignedOut wire (answer status (err f)) e h u = absurd (ground arith)
unauthenticated-IsSignedOut wire (answer status (ok text)) e h u =
    elim (Bool-cases (is_success status)) [
      | inl good ↦ elim (Result-cases (wire.read_session text)) [
        | inl (view, r) ↦ absurd (ground arith)
        | inr (f, r) ↦
            let same : ClientError.not_decoded f ≡ e = ground arith in
            absurd (ground (arith, ap is_unauthenticated same))
      ]
      | inr bad ↦
          let same : api_error status text (wire.read_error text) ≡ e = ground arith in
          unauthenticated status text (
            (==_iff status 401).0 (
              sym (api_error-status status text (wire.read_error text))
              ∙ ap is_unauthenticated same
              ∙ u))
    ]

IsSignedOut-unauthenticated :
    (wire : Wire) (exchange : Exchange)
    → IsSignedOut exchange
    → (e : ClientError) × (send wire.read_error wire.read_session exchange ≡ err e)
      × (is_unauthenticated e ≡ true)
unfolding send
IsSignedOut-unauthenticated wire exchange (unauthenticated status text same) = (
  api_error status text (wire.read_error text),
  rw same refl,
  api_error-status status text (wire.read_error text) ∙ rw same refl,
)

-- Once the client has an answer from `/me`, the shell leaves for the login page exactly if the
-- server answered 401 with a body that could be read; and while there is no answer it stays.
pub get_session-IsSignedOut :
    (wire : Wire) (base : String) (fetch : Request → Exchange) (session : Option SessionView)
    → ((navigates session (some (get_session wire base fetch)) ≡ replaces login)
        ↔ IsSignedOut (fetch (plain get (at wire base fetch "/me"))))
      × (navigates session none ≡ stays)
unfolding get_session shell_effect
get_session-IsSignedOut wire base fetch session =
    let sent = fetch (plain get (at wire base fetch "/me")) in
    let answered = send wire.read_error wire.read_session sent in
    (
      (
        λ h.
            let (e, failed, u) = leaves session answered h in
            unauthenticated-IsSignedOut wire sent e failed u,
        λ out.
            let (e, failed, u) = IsSignedOut-unauthenticated wire sent out in
            ap (λ r. navigates session (some (or_signed_out r))) failed ∙ leaves-of session e u,
      ),
      refl,
    )
