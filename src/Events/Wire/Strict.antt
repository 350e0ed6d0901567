-- ===== src/Events/Wire/Strict.antt =====
-- crates/rv2-events/src/wire.rs: `decode` accepts exactly the payloads whose tag agrees with the
-- envelope, and reads back what the writer writes.
use rust_v.Prelude.{
  ◌≡◌, ◌≢◌, ◌↔◌, ◌⊎◌, inl, inr, sym, Option, none, some, ok, err, arith, Option-cases,
}
use rust_v.Prelude.Text.{str_eq_iff}
use rust_v.Events.Payload.{Items}
use rust_v.Events.{Formats, DomainEvent, EventEnvelope}
use rust_v.Events.Codec.{from_value, to_value}
use rust_v.Events.Codec.RoundTrip.{from_value-to_value}
use rust_v.Events.Wire.{event_type, DecodeError, payload, type_mismatch, decode}

module _ (F : Formats) (read_array : Items → Option DomainEvent) where
  -- `decode` returns `e` exactly when the payload reads as `e` and the envelope names its wire type.
  -- It fails with `d` only when the payload reads as no event and `d` says so, or when it reads as
  -- an event of another wire type and `d` names both types.
  pub decode_strict :
      (env : EventEnvelope)
      → ((e : DomainEvent)
          → (decode F read_array env ≡ ok e)
            ↔ ((from_value F read_array env.payload ≡ some e) × (event_type e ≡ env.event_type)))
        × ((d : DecodeError)
            → decode F read_array env ≡ err d
            → ((from_value F read_array env.payload ≡ none) × (d ≡ payload env.event_type))
              ⊎ ((f : DomainEvent) × (from_value F read_array env.payload ≡ some f)
                  × (event_type f ≢ env.event_type)
                  × (d ≡ type_mismatch env.event_type (event_type f))))
  unfolding decode
  decode_strict env = elim (Option-cases (from_value F read_array env.payload)) [
    | inl h ↦ (λ e. (λ q. cc, λ q. cc), λ d q. inl (ground arith))
    | inr (f, h) ↦ (
      λ e. (
        λ q. ground (arith, str_eq_iff (event_type f) env.event_type),
        λ q. ground (arith, str_eq_iff (event_type f) env.event_type),
      ),
      λ d q. inr (
        f,
        h,
        ground (arith, str_eq_iff (event_type f) env.event_type),
        ground (arith, str_eq_iff (event_type f) env.event_type),
      ),
    )
  ]

  -- An envelope with an event's JSON form and its wire type decodes to the event.
  pub decode-to_value :
      (env : EventEnvelope) (e : DomainEvent)
      → env.payload ≡ to_value F read_array e
      → env.event_type ≡ event_type e
      → decode F read_array env ≡ ok e
  decode-to_value env e p t =
      ((decode_strict env).0 e).1 (rw p (from_value-to_value F read_array e), sym t)
