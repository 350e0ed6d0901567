-- ===== src/Outbound/Email.antt =====
-- crates/rv2-email/src/lib.rs: templates, and the mailer that renders and sends them. Tera, Resend's
-- client and the text of `templates/welcome.html` are parameters.
use rust_v.Prelude.{
  String, ◌≡◌, refl, Bool, true, false, Option, none, some, List, [], ◌∷◌, Result, ok, err, ◌>>=◌,
  if◌then◌else◌,
}
use rust_v.Prelude.Text.{is_empty, trim}

pub data EmailError : Type 0 where
  not_rendered : (template source : String) → EmailError
  not_sent : (reason : String) → EmailError

pub record Message : Type 0 where
  pub recipient : String
  pub subject : String
  pub html : String

pub data Template : Type 0 where
  welcome : (name product : String) → Template

pub data Mailer : Type 0 where
  disabled : (from : String) → Mailer
  resend : (key from : String) → Mailer

-- A call of Resend: the key, the sender and the message.
pub record Sent : Type 0 where
  pub key : String
  pub from : String
  pub message : Message

abbrev or_text : String → Option String → String
or_text text none = text
or_text text (some value) = value

abbrev mailer_of : String → Option String → Mailer
mailer_of from none = disabled from
mailer_of from (some key) = if is_empty (trim key) then disabled from else resend key from

-- `Mailer::from_env`
unfoldable pub from_env : (String → Option String) → Mailer
unfolding trim
from_env env =
    mailer_of (or_text "onboarding@example.com" (env "EMAIL_FROM")) (env "RESEND_API_KEY")

abbrev pub template_name : Template → String
template_name (welcome name product) = "welcome"

abbrev pub welcome_subject : String
welcome_subject = "Welcome to {{ product }}"

abbrev pub sender : Mailer → String
sender (disabled from) = from
sender (resend key from) = from

abbrev pub is_enabled : Mailer → Bool
is_enabled (disabled from) = false
is_enabled (resend key from) = true

-- `Tera::one_off` on a source and a context, the text of the body, and what Resend answers: an error,
-- where there is one.
module _ (one_off : String → List (String × String) → Result String String) (welcome_body : String)
    (deliver : Sent → Option String) where
  abbrev rendered : Template → String → List (String × String) → Result EmailError String
  rendered template source context = elim (one_off source context) [
    | ok text ↦ ok text
    | err e ↦ err (not_rendered (template_name template) e)
  ]

  -- `Template::render`: the subject, then the body.
  unfoldable pub render_template : Template → Result EmailError (String × String)
  render_template (welcome name product) = do
    let context = ("name", name) ∷ ("product", product) ∷ []
    subject ← rendered (welcome name product) welcome_subject context
    html ← rendered (welcome name product) welcome_body context
    ok (subject, html)

  -- `Mailer::render`
  unfoldable pub render : String → Template → Result EmailError Message
  unfolding render_template
  render recipient template = do
    (subject, html) ← render_template template
    ok (record { recipient = recipient; subject = subject; html = html })

  abbrev answered : Message → Option String → Result EmailError Message
  answered message none = ok message
  answered message (some reason) = err (not_sent reason)

  abbrev dispatch : Mailer → Message → List Sent × Result EmailError Message
  dispatch (disabled from) message = ([], ok message)
  dispatch (resend key from) message =
      let call : Sent = record { key = key; from = from; message = message } in
      (call ∷ [], answered message (deliver call))

  abbrev dispatched : Mailer → Result EmailError Message → List Sent × Result EmailError Message
  dispatched mailer (err e) = ([], err e)
  dispatched mailer (ok message) = dispatch mailer message

  -- `Mailer::send`: the calls of Resend that it makes, and its result.
  unfoldable pub send : Mailer → String → Template → List Sent × Result EmailError Message
  unfolding render
  send mailer recipient template = dispatched mailer (render recipient template)

  -- What becomes of a message: it is not rendered, it is only rendered, or Resend is called once.
  pub data Outcome (mailer : Mailer) (recipient : String) (template : Template)
      : List Sent → Result EmailError Message → Type 0 where
    unrendered :
        (e : EmailError)
        → render recipient template ≡ err e
        → Outcome mailer recipient template [] (err e)
    kept :
        (message : Message)
        → render recipient template ≡ ok message
        → is_enabled mailer ≡ false
        → Outcome mailer recipient template [] (ok message)
    accepted :
        (message : Message) (call : Sent)
        → render recipient template ≡ ok message
        → call.message ≡ message
        → call.from ≡ sender mailer
        → deliver call ≡ none
        → Outcome mailer recipient template (call ∷ []) (ok message)
    rejected :
        (message : Message) (call : Sent) (reason : String)
        → render recipient template ≡ ok message
        → call.message ≡ message
        → call.from ≡ sender mailer
        → deliver call ≡ some reason
        → Outcome mailer recipient template (call ∷ []) (err (not_sent reason))

  delivered-Outcome :
      (key from recipient : String) (template : Template) (message : Message) (call : Sent)
      (o : Option String)
      → render recipient template ≡ ok message
      → call.message ≡ message
      → call.from ≡ from
      → deliver call ≡ o
      → Outcome (resend key from) recipient template (call ∷ []) (answered message o)
  delivered-Outcome key from recipient template message call none h m f d =
      accepted message call h m f d
  delivered-Outcome key from recipient template message call (some reason) h m f d =
      rejected message call reason h m f d

  dispatched-Outcome :
      (mailer : Mailer) (recipient : String) (template : Template) (r : Result EmailError Message)
      → render recipient template ≡ r
      → Outcome mailer recipient template (dispatched mailer r).0 (dispatched mailer r).1
  dispatched-Outcome mailer recipient template (err e) h = unrendered e h
  dispatched-Outcome (disabled from) recipient template (ok message) h = kept message h refl
  dispatched-Outcome (resend key from) recipient template (ok message) h =
      let call : Sent = record { key = key; from = from; message = message } in
      delivered-Outcome key from recipient template message call (deliver call) h refl refl refl

  -- `send` renders the message first; where that fails it calls nobody and reports the failure.
  -- A disabled mailer then calls nobody and succeeds; an enabled one calls Resend once, with that
  -- message and the configured sender, and succeeds exactly if Resend accepts it.
  send-Outcome :
      (mailer : Mailer) (recipient : String) (template : Template)
      → Outcome mailer recipient template
          (send mailer recipient template).0
          (send mailer recipient template).1
  unfolding send
  send-Outcome mailer recipient template =
      dispatched-Outcome mailer recipient template (render recipient template) refl
