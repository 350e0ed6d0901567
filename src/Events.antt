-- ===== src/Events.antt =====
-- crates/rv2-events/src/lib.rs: the domain events, their envelope and their streams.
pub mod Payload
pub mod Streams
pub mod Codec
pub mod Wire
use rust_v.Prelude.{ℕ, String, ◌≡◌, Option, none, some}
use rust_v.Prelude.Opt.{◌>>=◌}
use rust_v.Prelude.Text.{str_eq, split_once}
use rust_v.Prelude.{if◌then◌else◌, ℤ}
use Prim.Native.String
use Payload.{Json, Items}

-- A `Uuid` is the number of its 128 bits, and a `DateTime<Utc>` the number of an instant on a scale
-- that keeps the order. The sources only compare them, print them and read them.
abbrev pub Uuid : Type 0
Uuid = ℕ

abbrev pub DateTime : Type 0
DateTime = ℕ

-- The printed forms of the crates `uuid` and `chrono`: what is printed is read back.
pub record Formats : Type 0 where
  pub show_uuid : Uuid → String
  pub read_uuid : String → Option Uuid
  pub read-show_uuid : (u : Uuid) → read_uuid (show_uuid u) ≡ some u
  pub show_time : DateTime → String
  pub read_time : String → Option DateTime
  pub read-show_time : (t : DateTime) → read_time (show_time t) ≡ some t

pub data StreamKind : Type 0 where
  user post : StreamKind

pub data DomainEvent : Type 0 where
  user_registered :
      (id : Uuid) (email : String) (occurred_at : DateTime) (full_name avatar_url : Option String)
      → DomainEvent
  user_profile_updated :
      (id : Uuid) (occurred_at : DateTime) (full_name avatar_url : Option (Option String))
      → DomainEvent
  post_created :
      (id author_id : Uuid) (title content : String) (occurred_at : DateTime) → DomainEvent
  post_edited : (id : Uuid) (occurred_at : DateTime) (title content : Option String) → DomainEvent
  post_deleted : (id : Uuid) (occurred_at : DateTime) → DomainEvent

pub record EventEnvelope : Type 0 where
  pub id : String
  pub entity_id : String
  pub event_type : String
  pub payload : Json
  pub metadata : Json
  pub ingested_at : String
  pub version : Option ℤ

unfoldable pub prefix : StreamKind → String
prefix user = "user"
prefix post = "post"

unfoldable pub aggregate_id : DomainEvent → Uuid
aggregate_id (user_registered id _ _ _ _) = id
aggregate_id (user_profile_updated id _ _ _) = id
aggregate_id (post_created id _ _ _ _) = id
aggregate_id (post_edited id _ _ _) = id
aggregate_id (post_deleted id _) = id

unfoldable pub stream_kind : DomainEvent → StreamKind
stream_kind (user_registered _ _ _ _ _) = user
stream_kind (user_profile_updated _ _ _ _) = user
stream_kind (post_created _ _ _ _ _) = post
stream_kind (post_edited _ _ _ _) = post
stream_kind (post_deleted _ _) = post

unfoldable pub occurred_at : DomainEvent → DateTime
occurred_at (user_registered _ _ at _ _) = at
occurred_at (user_profile_updated _ at _ _) = at
occurred_at (post_created _ _ _ _ at) = at
occurred_at (post_edited _ at _ _) = at
occurred_at (post_deleted _ at) = at

-- `match prefix { "user" => …, "post" => …, _ => return None }`
kind_of : String → Option StreamKind
kind_of p = if str_eq p "user" then some user else if str_eq p "post" then some post else none

module _ (F : Formats) where
  open F use {show_uuid, read_uuid}

  unfoldable pub stream : StreamKind → Uuid → String
  unfolding prefix
  stream kind id = String.◌++◌ (prefix kind) (String.◌++◌ ":" (show_uuid id))

  unfoldable pub stream_id : DomainEvent → String
  unfolding stream stream_kind aggregate_id
  stream_id e = stream (stream_kind e) (aggregate_id e)

  unfoldable pub parse_stream : String → Option (StreamKind × Uuid)
  unfolding kind_of split_once
  parse_stream entity_id = do
    (p, rest) ← split_once b':' entity_id
    kind ← kind_of p
    id ← read_uuid rest
    some (kind, id)
