-- ===== src/Tests/Events.antt =====
-- The codec, the wire types and the streams on concrete events.
use rust_v.Prelude.{◌≡◌, ◌≢◌, ◌↔◌, ◌⊎◌, refl, none, some, ok, err}
use rust_v.Events.Payload.{null}
use rust_v.Events.{DomainEvent, EventEnvelope}
use rust_v.Events.Codec.{from_value, to_value}
use rust_v.Events.Codec.RoundTrip.{from_value-to_value}
use rust_v.Events.Wire.{event_type, DecodeError, payload, type_mismatch, decode}
use rust_v.Events.Wire.Strict.{decode_strict, decode-to_value}
use rust_v.Tests.{formats, no_array, edited, patched}

-- A payload of an edit in the envelope of a creation.
abbrev mismatched : EventEnvelope
mismatched = record {
  id = "e1";
  entity_id = "post:111";
  event_type = "content.post.created";
  payload = to_value formats no_array edited;
  metadata = null;
  ingested_at = "";
  version = none;
}

abbrev matched : EventEnvelope
matched = record mismatched { event_type = "content.post.edited" }

decode_strict_example :
    ((e : DomainEvent)
      → (decode formats no_array mismatched ≡ ok e) ↔ (
          (from_value formats no_array mismatched.payload ≡ some e)
          × (event_type e ≡ mismatched.event_type)))
    × ((d : DecodeError)
        → decode formats no_array mismatched ≡ err d
        → ((from_value formats no_array mismatched.payload ≡ none)
            × (d ≡ payload mismatched.event_type))
          ⊎ ((f : DomainEvent) × (from_value formats no_array mismatched.payload ≡ some f)
              × (event_type f ≢ mismatched.event_type)
              × (d ≡ type_mismatch mismatched.event_type (event_type f))))
decode_strict_example = decode_strict formats no_array mismatched

decode-to_value_example : decode formats no_array matched ≡ ok edited
unfolding event_type
decode-to_value_example = decode-to_value formats no_array matched edited refl refl

from_value-to_value_example :
    from_value formats no_array (to_value formats no_array patched) ≡ some patched
from_value-to_value_example = from_value-to_value formats no_array patched
