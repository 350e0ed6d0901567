-- ===== src/Outbound/Analytics.antt =====
-- crates/rv2-analytics/src/lib.rs: events for PostHog, whose client is a parameter.
use rust_v.Prelude.{
  String, ◌≡◌, refl, ap, ◌↔◌, inl, inr, Bool, true, false, Option, none, some, List, [], ◌∷◌, ◌++◌,
  Bool-cases, arith, if◌then◌else◌,
}
use rust_v.Prelude.Text.{is_empty, trim, str_eq}
use rust_v.Prelude.Text.Order.{text_lt}
use rust_v.Events.Payload.{Json}

pub record TrackedEvent : Type 0 where
  pub name : String
  pub distinct_id : Option String
  pub properties : List (String × Json)

unfoldable pub tracked_event : String → TrackedEvent
tracked_event name = record { name = name; distinct_id = none; properties = [] }

unfoldable pub actor : String → TrackedEvent → TrackedEvent
actor distinct_id event = record event { distinct_id = some distinct_id }

-- `BTreeMap::insert`
unfoldable pub insert_property : String → Json → List (String × Json) → List (String × Json)
unfolding text_lt
insert_property key value [] = (key, value) ∷ []
insert_property key value ((k, v) ∷ properties) =
    let later = insert_property key value properties in
    if text_lt key k
    then (key, value) ∷ (k, v) ∷ properties
    else if str_eq key k
    then (key, value) ∷ properties
    else (k, v) ∷ later

unfoldable pub property : String → Json → TrackedEvent → TrackedEvent
unfolding insert_property
property key value event = record event { properties = insert_property key value event.properties }

abbrev or_anonymous : Option String → String
or_anonymous none = "anonymous"
or_anonymous (some id) = id

unfoldable pub resolved_distinct_id : TrackedEvent → String
resolved_distinct_id event = or_anonymous event.distinct_id

-- The options that are handed to PostHog's builder.
pub record Settings : Type 0 where
  pub api_key : String
  pub host : Option String

pub data Analytics : Type 0 where
  disabled : Analytics
  posthog : (settings : Settings) → Analytics

-- `filter(|h| !h.trim().is_empty())`
abbrev said : Option String → Option String
said none = none
said (some text) = if is_empty (trim text) then none else some text

-- Whether the builder accepts the options.
unfoldable pub configure : (Settings → Bool) → Option String → Option String → Analytics
unfolding trim
configure builds none host = disabled
configure builds (some key) host =
    let settings : Settings = record { api_key = key; host = said host } in
    if is_empty (trim key) then disabled else if builds settings then posthog settings else disabled

unfoldable pub from_env : (Settings → Bool) → (String → Option String) → Analytics
unfolding configure
from_env builds env = configure builds (env "POSTHOG_API_KEY") (env "POSTHOG_HOST")

abbrev pub is_enabled : Analytics → Bool
is_enabled disabled = false
is_enabled (posthog settings) = true

-- A `posthog_rs::Event`.
pub record Payload : Type 0 where
  pub name : String
  pub distinct_id : String
  pub properties : List (String × Json)

-- A property that cannot be serialised is left out.
abbrev serialisable : (Json → Bool) → List (String × Json) → List (String × Json)
serialisable fits [] = []
serialisable fits ((key, value) ∷ properties) =
    let rest = serialisable fits properties in if fits value then (key, value) ∷ rest else rest

abbrev payload_of : (Json → Bool) → TrackedEvent → Payload
payload_of fits event = record {
  name = event.name;
  distinct_id = or_anonymous event.distinct_id;
  properties = serialisable fits event.properties;
}

-- `track`: the client's queue after it.
unfoldable pub track : (Json → Bool) → Analytics → TrackedEvent → List Payload → List Payload
unfolding resolved_distinct_id
track fits disabled event queue = queue
track fits (posthog settings) event queue = queue ++ (payload_of fits event ∷ [])

-- `shutdown`, with what the client does when it is told to: the queue after it.
unfoldable pub shutdown : (List Payload → List Payload) → Analytics → List Payload → List Payload
shutdown flush disabled queue = queue
shutdown flush (posthog settings) queue = flush queue

-- What asks for analytics: a key that is not blank, with options that the builder accepts.
pub record IsConfigured (builds : Settings → Bool) (key host : Option String) : Type 0 where
  pub text : String
  pub given : key ≡ some text
  pub inked : is_empty (trim text) ≡ false
  pub accepted : builds (record { api_key = text; host = said host }) ≡ true

-- Analytics are enabled exactly if a key is set that is not blank and the builder accepts it with
-- the host, where that is not blank.
configure-IsConfigured :
    (builds : Settings → Bool) (key host : Option String)
    → (is_enabled (configure builds key host) ≡ true) ↔ IsConfigured builds key host
unfolding configure
configure-IsConfigured builds none host =
    (λ h. absurd (ground arith), λ c. absurd (ground (arith, c.given)))
configure-IsConfigured builds (some key) host = elim (Bool-cases (is_empty (trim key))) [
  | inl blank ↦ (
    λ h. absurd (ground arith),
    λ c.
        let same : key ≡ c.text = ground (arith, c.given) in
        absurd (ground (arith, ap (λ (t : String). is_empty (trim t)) same, c.inked)),
  )
  | inr inked ↦
      let settings : Settings = record { api_key = key; host = said host } in
      elim (Bool-cases (builds settings)) [
        | inl accepted ↦ (
          λ h. record { text = key; given = refl; inked = inked; accepted = accepted },
          λ c. rw (inked, accepted) refl,
        )
        | inr refused ↦ (
          λ h. absurd (ground (arith, inked, refused)),
          λ c.
              let same : key ≡ c.text = ground (arith, c.given) in
              absurd (
                ground (
                  arith,
                  ap (λ (t : String). builds (record { api_key = t; host = said host })) same,
                  c.accepted,
                  refused,
                )),
        )
      ]
]
