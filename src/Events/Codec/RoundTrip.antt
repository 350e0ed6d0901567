-- ===== src/Events/Codec/RoundTrip.antt =====
-- Every domain event survives its JSON form.
use rust_v.Prelude.{◌≡◌, Option, some, arith}
use rust_v.Events.Payload.{Items}
use rust_v.Events.{
  Formats, DomainEvent, user_registered, user_profile_updated, post_created, post_edited,
  post_deleted,
}
use rust_v.Events.Codec.{to_value, from_value}

module _ (F : Formats) (read_array : Items → Option DomainEvent) where
  -- An event written as JSON reads back as itself: a patch's "unchanged" stays unchanged and a
  -- patch's "cleared" stays cleared.
  pub from_value-to_value :
      (e : DomainEvent) → from_value F read_array (to_value F read_array e) ≡ some e
  unfolding from_value to_value
  from_value-to_value (user_registered id email at full_name avatar_url) =
      ground (arith, F.read-show_uuid id, F.read-show_time at)
  from_value-to_value (user_profile_updated id at full_name avatar_url) =
      ground (arith, F.read-show_uuid id, F.read-show_time at)
  from_value-to_value (post_created id author_id title content at) =
      ground (arith, F.read-show_uuid id, F.read-show_uuid author_id, F.read-show_time at)
  from_value-to_value (post_edited id at title content) =
      ground (arith, F.read-show_uuid id, F.read-show_time at)
  from_value-to_value (post_deleted id at) =
      ground (arith, F.read-show_uuid id, F.read-show_time at)
