-- ===== src/Tests.antt =====
-- Concrete inputs: printed forms, a store in memory, and a log of events.
mod Events
mod Worker
mod Handlers
mod Rules
mod Edges
mod Release
mod Bundle
mod Access
mod Jobs
mod Scan
mod Client
mod Gates
mod Machines
mod Ui
mod Server
use Prim.Native.String
use rust_v.Prelude.{
  ℕ, zero, suc, ◌+◌, ◌<◌, String, ◌≡◌, refl, sym, ap, ◌∙◌, Option, none, some, List, [], ◌∷◌, ◌++◌,
  map, filter, filter-append, Result, ok, length, arith, if◌then◌else◌,
}
use rust_v.Prelude.Text.{str_eq, str_eq_refl}
use rust_v.Prelude.Text.Search.{contains, strip_prefix}
use rust_v.Events.Payload.{Json, null, Items}
use rust_v.Events.{
  Uuid, DateTime, Formats, DomainEvent, user_registered, user_profile_updated, post_created,
  post_edited, post_deleted, EventEnvelope, stream_id,
}
use rust_v.Events.Codec.{to_value}
use rust_v.Events.Wire.{event_type}
use rust_v.Events.Wire.Strict.{decode-to_value}
use rust_v.AllSource.{SdkEvent, decode_or_warn, envelope_from_sdk}
use rust_v.AllSource.Core.{IngestEventInput, Core, IsStored, CoreLaws}
use rust_v.AllSource.Worker.Step.{IsAddressed}

abbrev unary : ℕ → String
unary zero = String.[]
unary (suc n) = String.◌∷◌ "1" (unary n)

abbrev count : String → ℕ
count String.[] = 0
count (String.◌∷◌ c s) = suc (count s)

pub count-unary : (n : ℕ) → some (count (unary n)) ≡ some n
count-unary zero = refl
count-unary (suc n) = ground (arith, count-unary n)

-- Numbers are printed as that many digits.
abbrev pub formats : Formats
formats = record {
  show_uuid = unary;
  read_uuid = λ s. some (count s);
  read-show_uuid = count-unary;
  show_time = unary;
  read_time = λ s. some (count s);
  read-show_time = count-unary;
}

abbrev pub no_array : Items → Option DomainEvent
no_array items = none

-- The event that a writer of `e` puts into the store.
abbrev pub written_event : DomainEvent → SdkEvent
written_event e = record {
  id = "event";
  event_type = event_type e;
  entity_id = stream_id formats e;
  payload = to_value formats no_array e;
  metadata = null;
  timestamp = "";
  version = none;
  tenant_id = none;
}

pub decode-written_event :
    (e : DomainEvent) → decode_or_warn formats no_array (written_event e) ≡ some e
unfolding decode_or_warn
decode-written_event e =
    rw (decode-to_value formats no_array (envelope_from_sdk (written_event e)) e refl refl) refl

pub written_event-IsAddressed : (e : DomainEvent) → IsAddressed formats no_array (written_event e)
written_event-IsAddressed e f h =
    let same : e ≡ f = ground (arith, decode-written_event e) in ap (stream_id formats) same

-- Only a type with dots keeps its name.
abbrev normalized : String → String
normalized t = if contains "." t then t else "event"

abbrev stored : IngestEventInput → SdkEvent
stored input = record {
  id = "event";
  event_type = normalized input.event_type;
  entity_id = input.entity_id;
  payload = input.payload;
  metadata = null;
  timestamp = "";
  version = none;
  tenant_id = none;
}

abbrev pub stream_of : String → List SdkEvent → List SdkEvent
stream_of entity events = filter (λ event. str_eq event.entity_id entity) events

-- A store that accepts every event, normalizes its type, and answers with the whole stream.
abbrev pub memory : Core (List SdkEvent) String
memory = record {
  normalize_event_type = normalized;
  ingest_event = λ s input. (ok input.entity_id, s ++ stored input ∷ []);
  query_events = λ s entity tenant limit. some (stream_of entity s);
}

stream_of-append :
    (s : List SdkEvent) (input : IngestEventInput)
    → stream_of input.entity_id (s ++ stored input ∷ [])
      ≡ stream_of input.entity_id s ++ stored input ∷ []
stream_of-append s input =
    filter-append (λ event. str_eq event.entity_id input.entity_id) s (stored input ∷ [])
    ∙ rw (str_eq_refl input.entity_id) refl

pub memory_laws : CoreLaws memory "default"
memory_laws = record {
  ingest-query = λ s input id limit events h q room. (
    stored input,
    record { event_type = refl; entity_id = refl; payload = refl },
    ap some (stream_of-append s input) ∙ ground (arith, q),
  );
}

pub normalized-event_type : (e : DomainEvent) → normalized (event_type e) ≡ event_type e
unfolding event_type contains strip_prefix
normalized-event_type (user_registered _ _ _ _ _) = refl
normalized-event_type (user_profile_updated _ _ _ _) = refl
normalized-event_type (post_created _ _ _ _ _) = refl
normalized-event_type (post_edited _ _ _ _) = refl
normalized-event_type (post_deleted _ _) = refl

abbrev pub created : DomainEvent
created = post_created 3 5 "Title" "Body" 10

abbrev pub edited : DomainEvent
edited = post_edited 3 12 (some "New title") none

abbrev pub deleted : DomainEvent
deleted = post_deleted 3 14

abbrev pub other : DomainEvent
other = post_created 4 5 "Other" "Text" 11

abbrev pub registered : DomainEvent
registered = user_registered 5 "ann@example.org" 9 (some "Ann") none

abbrev pub patched : DomainEvent
patched = user_profile_updated 5 13 (some none) (some (some "https://example.org/a.png"))
