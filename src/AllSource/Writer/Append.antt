-- ===== src/AllSource/Writer/Append.antt =====
-- crates/rv2-allsource/src/writer.rs: what the store holds after an append.
use rust_v.Prelude.{
  ℕ, ◌<◌, String, ◌≡◌, ◌∙◌, inl, inr, Bool-cases, Option, none, some, List, [], ◌∷◌, ◌++◌, Result,
  ok, err, length, arith,
}
use rust_v.Prelude.Text.{str_eq, str_eq_iff, str_eq_refl}
use rust_v.Events.Payload.{Json, Items}
use rust_v.Events.{Formats, DomainEvent, stream_id}
use rust_v.Events.Wire.{event_type}
use rust_v.Events.Wire.Strict.{decode-to_value}
use rust_v.AllSource.{SdkEvent, envelope_from_sdk, decode_or_warn}
use rust_v.AllSource.Core.{Core, CoreLaws, IsStored}
use rust_v.AllSource.Writer.{from_sdk, ingest_input, append}

from_sdk-ok :
    {SdkError : Type 0} (r : Result SdkError String) (id : String) → from_sdk r ≡ ok id → r ≡ ok id
from_sdk-ok (ok x) id h = ground arith
from_sdk-ok (err e) id h = cc

module _ (F : Formats) (read_array : Items → Option DomainEvent) {Store SdkError : Type 0}
    (core : Core Store SdkError) (tenant : String) (laws : CoreLaws core tenant) where
  -- A stored input decodes to the event that it was made of, if the normalizer keeps its type.
  IsStored-decode :
      (e : DomainEvent) (metadata : Option Json) (event : SdkEvent)
      → core.normalize_event_type (event_type e) ≡ event_type e
      → IsStored core (ingest_input F read_array core e metadata) event
      → decode_or_warn F read_array event ≡ some e
  unfolding decode_or_warn ingest_input
  IsStored-decode e metadata event kept stored = rw (
      decode-to_value F read_array (envelope_from_sdk event) e stored.payload
        (stored.event_type ∙ kept))

  -- An append that succeeds is of a type that the normalizer keeps: the guard has let it through.
  append-kept :
      (e : DomainEvent) (s : Store) (id : String)
      → (append F read_array core e s).0 ≡ ok id
      → core.normalize_event_type (event_type e) ≡ event_type e
  unfolding append
  append-kept e s id h =
      elim (Bool-cases (str_eq (core.normalize_event_type (event_type e)) (event_type e))) [
        | inl k ↦ (str_eq_iff _ _).0 k
        | inr k ↦ absurd (let refused = rw k at h in ground arith)
      ]

  -- Of a type that the normalizer keeps, an append reaches the store.
  pub append-ingest :
      (e : DomainEvent) (s : Store)
      → core.normalize_event_type (event_type e) ≡ event_type e
      → append F read_array core e s ≡ (
        from_sdk (core.ingest_event s (ingest_input F read_array core e none)).0,
        (core.ingest_event s (ingest_input F read_array core e none)).1,
      )
  unfolding append
  append-ingest e s kept = rw (kept, str_eq_refl)

  -- In a store that keeps an accepted event under its normalized type, whatever the normalizer does,
  -- an append that succeeds on a stream whose query answers with fewer events than the limit puts one
  -- event behind those, and that event is on the stream of, and decodes to, the domain event that was
  -- appended.
  pub append-query :
      (e : DomainEvent) (s : Store) (id : String) (limit : ℕ) (events : List SdkEvent)
      → (append F read_array core e s).0 ≡ ok id
      → core.query_events s (stream_id F e) tenant limit ≡ some events
      → length events < limit
      → (event : SdkEvent) × (event.entity_id ≡ stream_id F e)
        × (decode_or_warn F read_array event ≡ some e)
        × (core.query_events (append F read_array core e s).1 (stream_id F e) tenant limit
            ≡ some (events ++ event ∷ []))
  unfolding append ingest_input
  append-query e s id limit events h q room =
      let input = ingest_input F read_array core e none in
      let kept = append-kept e s id h in
      let accepted : (core.ingest_event s input).0 ≡ ok id =
        from_sdk-ok (core.ingest_event s input).0 id (rw (append-ingest e s kept) at h) in
      let (event, stored, after) = laws.ingest-query s input id limit events accepted q room in
      (
        event,
        stored.entity_id,
        IsStored-decode e none event kept stored,
        rw (append-ingest e s kept) after,
      )
