-- ===== src/AllSource.antt =====
-- crates/rv2-allsource/src: the SDK's event, its envelope, and the loop that folds a stream.
pub mod Core
pub mod Folders
pub mod Posts
pub mod Users
pub mod Worker
pub mod Writer
use rust_v.Prelude.{ℕ, String, Bool, Option, none, some, List, [], ◌∷◌, Result, ok, err, ℤ}
use rust_v.Events.Payload.{Json, Items}
use rust_v.Events.{Formats, DomainEvent, EventEnvelope}
use rust_v.Events.Wire.{DecodeError, decode}

-- `allsource::Event`
pub record SdkEvent : Type 0 where
  pub id : String
  pub event_type : String
  pub entity_id : String
  pub payload : Json
  pub metadata : Json
  pub timestamp : String
  pub version : Option ℤ
  pub tenant_id : Option String

unfoldable pub envelope_from_sdk : SdkEvent → EventEnvelope
envelope_from_sdk event = record {
  id = event.id;
  entity_id = event.entity_id;
  event_type = event.event_type;
  payload = event.payload;
  metadata = event.metadata;
  ingested_at = event.timestamp;
  version = event.version;
}

-- `allsource::EventFolder`: the state of the fold is `F`, the read model `S`.
pub record EventFolder (F S : Type 0) : Type 0 where
  pub initial : F
  pub apply : F → SdkEvent → F × Bool
  pub finalize : F → Option S

module _ {F S : Type 0} (folder : EventFolder F S) where
  -- `for event in &response.events { folder.apply(event); }`
  unfoldable pub apply_all : F → List SdkEvent → F
  apply_all f [] = f
  apply_all f (event ∷ events) = apply_all (folder.apply f event).0 events

  unfoldable pub fold_events : List SdkEvent → Option S
  unfolding apply_all
  fold_events events = folder.finalize (apply_all folder.initial events)

-- The warning of the `Err` branch goes to the log.
abbrev to_option : Result DecodeError DomainEvent → Option DomainEvent
to_option (ok decoded) = some decoded
to_option (err error) = none

module _ (F : Formats) (read_array : Items → Option DomainEvent) where
  unfoldable pub decode_or_warn : SdkEvent → Option DomainEvent
  unfolding envelope_from_sdk
  decode_or_warn event = to_option (decode F read_array (envelope_from_sdk event))
