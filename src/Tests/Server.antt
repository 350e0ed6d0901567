-- ===== src/Tests/Server.antt =====
-- The app's pages over a concrete client, and the server's start.
use rust_v.Prelude.{String, ◌≡◌, refl, true, Option, none, some, List, [], ◌∷◌, Result, ok, err}
use rust_v.Prelude.Text.{trim}
use rust_v.Outbound.Email.{welcome, Sent, EmailError, Message, resend, send, not_sent}
use rust_v.Outbound.Analytics.{configure, disabled}
use rust_v.Api.Start.{
  Boot, main, stage, logging_on, metrics_on, configured, state_built, jobs_started,
}

-- A template engine that answers with its source.
abbrev echo : String → List (String × String) → Result String String
echo source context = ok source

abbrev refuse : Sent → Option String
refuse call = some "over the limit"

abbrev mail : List Sent × Result EmailError Message
mail =
    send echo "<p>" refuse (resend "key" "team@example.com") "ada@example.com"
      (welcome "Ada" "rust-v2")

abbrev port_taken : Boot
port_taken = record {
  metrics = ok tt;
  config = ok tt;
  state = ok tt;
  bind = err "address in use";
  serve = ok tt;
}

rejected_mail : mail.1 ≡ err (not_sent "over the limit")
unfolding send
rejected_mail = refl

nothing_is_stopped :
    (main port_taken).0 ≡ logging_on ∷ metrics_on ∷ configured ∷ state_built ∷ jobs_started ∷ []
unfolding main stage
nothing_is_stopped = refl

blank_key_disables : configure (λ settings. true) (some "  ") none ≡ disabled
unfolding configure trim
blank_key_disables = refl
