-- ===== src/AllSource/Core.antt =====
-- The interface of AllSource Core, which crates/rv2-allsource calls over HTTP: its store is a
-- parameter, and so are its answers.
use rust_v.Prelude.{ℕ, ◌<◌, String, ◌≡◌, Option, some, List, [], ◌∷◌, ◌++◌, Result, ok, length}
use rust_v.Events.Payload.{Json}
use rust_v.AllSource.{SdkEvent}

-- `allsource::IngestEventInput`, with no expected version.
pub record IngestEventInput : Type 0 where
  pub event_type : String
  pub entity_id : String
  pub payload : Json
  pub metadata : Option Json

pub record Core (Store SdkError : Type 0) : Type 0 where
  -- `allsource::normalize_event_type`
  pub normalize_event_type : String → String
  -- `CoreClient::ingest_event`: the id of the event, or the error.
  pub ingest_event : Store → IngestEventInput → Result SdkError String × Store
  -- `GET /api/v1/events/query` with an entity id, a tenant and a limit; `none` where it fails.
  pub query_events : Store → String → String → ℕ → Option (List SdkEvent)

-- The event that the store hands back for an input: `ingest_event` runs the normalizer on the type.
pub record IsStored {Store SdkError : Type 0} (core : Core Store SdkError)
    (input : IngestEventInput) (event : SdkEvent) : Type 0 where
  pub event_type : event.event_type ≡ core.normalize_event_type input.event_type
  pub entity_id : event.entity_id ≡ input.entity_id
  pub payload : event.payload ≡ input.payload

-- What the sources rely on: an event that was accepted comes last in the next answer for its entity,
-- below the limit. Nothing is said of what the normalizer does to a type.
pub record CoreLaws {Store SdkError : Type 0} (core : Core Store SdkError) (tenant : String)
    : Type 0 where
  pub ingest-query :
      (s : Store) (input : IngestEventInput) (id : String) (limit : ℕ) (events : List SdkEvent)
      → (core.ingest_event s input).0 ≡ ok id
      → core.query_events s input.entity_id tenant limit ≡ some events
      → length events < limit
      → (event : SdkEvent) × IsStored core input event
        × (core.query_events (core.ingest_event s input).1 input.entity_id tenant limit
            ≡ some (events ++ event ∷ []))
