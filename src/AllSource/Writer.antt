-- ===== src/AllSource/Writer.antt =====
-- crates/rv2-allsource/src/writer.rs: appending a domain event to its own stream.
pub mod Append
use rust_v.Prelude.{String, Bool, Option, none, Result, ok, err, if◌then◌else◌}
use rust_v.Prelude.Text.{str_eq}
use rust_v.Events.Payload.{Json, Items}
use rust_v.Events.{Formats, DomainEvent, stream_id}
use rust_v.Events.Codec.{to_value}
use rust_v.Events.Wire.{event_type}
use rust_v.AllSource.Core.{IngestEventInput, Core}

-- Serializing a domain event does not fail, so `Serialize` has no constructor here.
pub data AppendError (SdkError : Type 0) : Type 0 where
  sdk : SdkError → AppendError SdkError
  unstable_wire_type : (declared normalized : String) → AppendError SdkError

abbrev pub from_sdk :
    {SdkError : Type 0} → Result SdkError String → Result (AppendError SdkError) String
from_sdk (ok id) = ok id
from_sdk (err e) = err (sdk e)

module _ (F : Formats) (read_array : Items → Option DomainEvent) {Store SdkError : Type 0}
    (core : Core Store SdkError) where
  unfoldable pub ingest_input : DomainEvent → Option Json → IngestEventInput
  ingest_input event metadata = record {
    event_type = event_type event;
    entity_id = stream_id F event;
    payload = to_value F read_array event;
    metadata = metadata;
  }

  unfoldable pub append_with_metadata :
      DomainEvent → Option Json → Store → Result (AppendError SdkError) String × Store
  append_with_metadata event metadata s =
      if str_eq (core.normalize_event_type (event_type event)) (event_type event)
      then (
        from_sdk (core.ingest_event s (ingest_input event metadata)).0,
        (core.ingest_event s (ingest_input event metadata)).1,
      )
      else (
        err (unstable_wire_type (event_type event) (core.normalize_event_type (event_type event))),
        s,
      )

  unfoldable pub append : DomainEvent → Store → Result (AppendError SdkError) String × Store
  unfolding append_with_metadata
  append event s = append_with_metadata event none s
