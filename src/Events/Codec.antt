-- ===== src/Events/Codec.antt =====
-- crates/rv2-events/src/lib.rs: the JSON form of a domain event, as its serde attributes say it:
-- the tag under "type", `default` on the added fields, and `skip_serializing_if` with
-- `double_option` on the fields of a patch.
pub mod RoundTrip
use rust_v.Prelude.{String, Option, none, some, if◌then◌else◌}
use rust_v.Prelude.Text.{str_eq}
use rust_v.Prelude.Opt.{◌>>=◌}
use rust_v.Events.Payload.{
  Json, null, string, array, object, Items, Fields, end, field, get_key, as_string,
}
use rust_v.Events.{
  Uuid, DateTime, Formats, DomainEvent, user_registered, user_profile_updated, post_created,
  post_edited, post_deleted,
}

-- An `Option<String>`: `None` is `null`.
unfoldable pub option_value : Option String → Json
option_value none = null
option_value (some s) = string s

unfoldable pub value_option : Json → Option (Option String)
value_option null = some none
value_option (string s) = some (some s)
value_option _ = none

-- `skip_serializing_if = "Option::is_none"` on a patch field.
unfoldable pub patch_field : String → Option (Option String) → Fields → Fields
unfolding option_value
patch_field k none rest = rest
patch_field k (some v) rest = field k (option_value v) rest

-- `double_option`: a value that is there, `null` too, is `Some` of what it reads as.
unfoldable pub double_option : Json → Option (Option (Option String))
unfolding value_option
double_option v = do inner ← value_option v; some (some inner)

-- `#[serde(default)]`: an absent key is `None`.
read_default : Option Json → Option (Option String)
unfolding value_option
read_default none = some none
read_default (some v) = value_option v

read_patch : Option Json → Option (Option (Option String))
unfolding double_option
read_patch none = some none
read_patch (some v) = double_option v

read_text : String → Fields → Option String
unfolding get_key as_string
read_text k fs = do v ← get_key k fs; as_string v

-- A payload that is an array is read by serde's own rule for tagged enums, which is a parameter.
module _ (F : Formats) (read_array : Items → Option DomainEvent) where
  open F use {show_uuid, read_uuid, show_time, read_time}

  tagged : String → Fields → Json
  tagged t fs = object (field "type" (string t) fs)

  -- `serde_json::to_value(event)`
  unfoldable pub to_value : DomainEvent → Json
  unfolding patch_field option_value tagged
  to_value (user_registered id email at full_name avatar_url) = tagged "UserRegistered" (
      field "id" (string (show_uuid id)) (
        field "email" (string email) (
          field "occurred_at" (string (show_time at)) (
            field "full_name" (option_value full_name)
              (field "avatar_url" (option_value avatar_url) end)))))
  to_value (user_profile_updated id at full_name avatar_url) = tagged "UserProfileUpdated" (
      field "id" (string (show_uuid id)) (
        field "occurred_at" (string (show_time at))
          (patch_field "full_name" full_name (patch_field "avatar_url" avatar_url end))))
  to_value (post_created id author_id title content at) = tagged "PostCreated" (
      field "id" (string (show_uuid id)) (
        field "author_id" (string (show_uuid author_id)) (
          field "title" (string title)
            (field "content" (string content) (field "occurred_at" (string (show_time at)) end)))))
  to_value (post_edited id at title content) = tagged "PostEdited" (
      field "id" (string (show_uuid id)) (
        field "occurred_at" (string (show_time at))
          (field "title" (option_value title) (field "content" (option_value content) end))))
  to_value (post_deleted id at) =
      tagged "PostDeleted"
        (field "id" (string (show_uuid id)) (field "occurred_at" (string (show_time at)) end))

  read_id : String → Fields → Option Uuid
  unfolding read_text
  read_id k fs = do s ← read_text k fs; read_uuid s

  read_at : Fields → Option DateTime
  unfolding read_text
  read_at fs = do s ← read_text "occurred_at" fs; read_time s

  read_user_registered : Fields → Option DomainEvent
  unfolding read_id read_at read_default
  read_user_registered fs = do
    id ← read_id "id" fs
    email ← read_text "email" fs
    at ← read_at fs
    full_name ← read_default (get_key "full_name" fs)
    avatar_url ← read_default (get_key "avatar_url" fs)
    some (user_registered id email at full_name avatar_url)

  read_user_profile_updated : Fields → Option DomainEvent
  unfolding read_id read_at read_patch
  read_user_profile_updated fs = do
    id ← read_id "id" fs
    at ← read_at fs
    full_name ← read_patch (get_key "full_name" fs)
    avatar_url ← read_patch (get_key "avatar_url" fs)
    some (user_profile_updated id at full_name avatar_url)

  read_post_created : Fields → Option DomainEvent
  unfolding read_id read_at
  read_post_created fs = do
    id ← read_id "id" fs
    author_id ← read_id "author_id" fs
    title ← read_text "title" fs
    content ← read_text "content" fs
    at ← read_at fs
    some (post_created id author_id title content at)

  read_post_edited : Fields → Option DomainEvent
  unfolding read_id read_at read_default
  read_post_edited fs = do
    id ← read_id "id" fs
    at ← read_at fs
    title ← read_default (get_key "title" fs)
    content ← read_default (get_key "content" fs)
    some (post_edited id at title content)

  read_post_deleted : Fields → Option DomainEvent
  unfolding read_id read_at
  read_post_deleted fs = do id ← read_id "id" fs; at ← read_at fs; some (post_deleted id at)

  -- The tag chooses the variant; unknown keys are passed over.
  read_tagged : String → Fields → Option DomainEvent
  unfolding read_user_registered read_user_profile_updated read_post_created read_post_edited
      read_post_deleted
  read_tagged t fs =
      if str_eq t "UserRegistered"
      then read_user_registered fs
      else if str_eq t "UserProfileUpdated"
      then read_user_profile_updated fs
      else if str_eq t "PostCreated"
      then read_post_created fs
      else if str_eq t "PostEdited"
      then read_post_edited fs
      else if str_eq t "PostDeleted"
      then read_post_deleted fs
      else none

  -- `serde_json::from_value::<DomainEvent>(value)`
  unfoldable pub from_value : Json → Option DomainEvent
  unfolding read_tagged
  from_value (object fs) = do t ← read_text "type" fs; read_tagged t fs
  from_value (array items) = read_array items
  from_value _ = none
