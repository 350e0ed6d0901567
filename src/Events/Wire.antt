-- ===== src/Events/Wire.antt =====
-- crates/rv2-events/src/wire.rs: the wire type of each variant, and the strict decoder.
pub mod Types
pub mod Strict
use rust_v.Prelude.{String, Option, none, some, List, [], ◌∷◌, Result, ok, err, if◌then◌else◌}
use rust_v.Prelude.Text.{str_eq}
use rust_v.Events.Payload.{Items}
use rust_v.Events.{
  Formats, DomainEvent, user_registered, user_profile_updated, post_created, post_edited,
  post_deleted, EventEnvelope,
}
use rust_v.Events.Codec.{from_value}

unfoldable pub event_type : DomainEvent → String
event_type (user_registered _ _ _ _ _) = "identity.user.registered"
event_type (user_profile_updated _ _ _ _) = "identity.user.profile_updated"
event_type (post_created _ _ _ _ _) = "content.post.created"
event_type (post_edited _ _ _ _) = "content.post.edited"
event_type (post_deleted _ _) = "content.post.deleted"

abbrev pub all_wire_types : List String
all_wire_types =
    "identity.user.registered" ∷ "identity.user.profile_updated" ∷ "content.post.created"
    ∷ "content.post.edited" ∷ "content.post.deleted" ∷ []

abbrev pub post_wire_types : List String
post_wire_types = "content.post.created" ∷ "content.post.edited" ∷ "content.post.deleted" ∷ []

abbrev pub user_wire_types : List String
user_wire_types = "identity.user.registered" ∷ "identity.user.profile_updated" ∷ []

-- The cause that `serde_json` reports beside `payload` is text for the log.
pub data DecodeError : Type 0 where
  payload : (event_type : String) → DecodeError
  type_mismatch : (envelope payload : String) → DecodeError

check_type : EventEnvelope → DomainEvent → Result DecodeError DomainEvent
check_type env e =
    if str_eq (event_type e) env.event_type
    then ok e
    else err (type_mismatch env.event_type (event_type e))

module _ (F : Formats) (read_array : Items → Option DomainEvent) where
  unfoldable pub decode : EventEnvelope → Result DecodeError DomainEvent
  unfolding check_type
  decode env = elim (from_value F read_array env.payload) [
    | none ↦ err (payload env.event_type)
    | some e ↦ check_type env e
  ]
