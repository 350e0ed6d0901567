-- ===== src/AllSource/Worker/Step.antt =====
-- crates/rv2-allsource/src/workers.rs: what one event does to the read model of all posts.
use rust_v.Prelude.{◌≡◌, ◌⊎◌, inl, inr, refl, Option, none, some, arith, ◌==◌, if◌then◌else◌}
use rust_v.Prelude.Dict
use rust_v.Prelude.Dict.{Dict, dict_laws, get-insert, get-remove}
use rust_v.Events.Payload.{Items}
use rust_v.Events.{
  Uuid, Formats, DomainEvent, user_registered, user_profile_updated, post_created, post_edited,
  post_deleted, post, stream_id, stream_kind, aggregate_id,
}
use rust_v.Events.Streams.{prefix-split_once}
use rust_v.ApiTypes.{PostView}
use rust_v.AllSource.{SdkEvent, envelope_from_sdk, decode_or_warn}
use rust_v.AllSource.Folders.{
  PostFolder, new_post_folder, edit_view, apply_post, finalize_post, or_ignore, apply_post_sdk,
}
use rust_v.AllSource.Posts.{Foreign}
use rust_v.AllSource.Worker.{
  PostsReadModel, seed, store_seeded, store_new, if_handled, existing, apply_to, apply_post_event,
}

-- What an event of a post makes of the view that the model has of it.
abbrev pub next : Option PostView → DomainEvent → Option PostView
next o (post_created id author_id title content at) = some (record {
  id = id;
  author_id = author_id;
  title = title;
  content = content;
  created_at = at;
  updated_at = at;
})
next none (post_edited _ at title content) = none
next (some v) (post_edited _ at title content) = some (edit_view at title content v)
next o (post_deleted _ _) = none
next o _ = o

-- Each view is kept under its own id.
abbrev pub IsKeyed : PostsReadModel → Type 0
IsKeyed state = (k : Uuid) (v : PostView) → Dict.get state k ≡ some v → v.id ≡ k

pub Foreign-cases :
    (o : Option DomainEvent)
    → Foreign o ⊎ ((e : DomainEvent) × (o ≡ some e) × (stream_kind e ≡ post))
unfolding stream_kind
Foreign-cases none = inl tt
Foreign-cases (some (user_registered _ _ _ _ _)) = inl refl
Foreign-cases (some (user_profile_updated _ _ _ _)) = inl refl
Foreign-cases (some (post_created id author_id title content at)) =
    inr (post_created id author_id title content at, refl, refl)
Foreign-cases (some (post_edited id at title content)) =
    inr (post_edited id at title content, refl, refl)
Foreign-cases (some (post_deleted id at)) = inr (post_deleted id at, refl, refl)

if_handled-Foreign :
    (state : PostsReadModel) (store : PostFolder → PostsReadModel) (f : PostFolder)
    (o : Option DomainEvent)
    → Foreign o
    → if_handled state store (or_ignore apply_post f o) ≡ state
unfolding if_handled or_ignore apply_post stream_kind
if_handled-Foreign state store f none h = refl
if_handled-Foreign state store f (some (user_registered _ _ _ _ _)) h = refl
if_handled-Foreign state store f (some (user_profile_updated _ _ _ _)) h = refl
if_handled-Foreign state store f (some (post_created _ _ _ _ _)) h = cc
if_handled-Foreign state store f (some (post_edited _ _ _ _)) h = cc
if_handled-Foreign state store f (some (post_deleted _ _)) h = cc

next-id :
    (o : Option PostView) (e : DomainEvent) (v : PostView)
    → stream_kind e ≡ post
    → ((w : PostView) → o ≡ some w → w.id ≡ aggregate_id e)
    → next o e ≡ some v
    → v.id ≡ aggregate_id e
unfolding stream_kind aggregate_id edit_view
next-id o (post_created id author_id title content at) v k h p = ground arith
next-id (some w) (post_edited id at title content) v k h p = ground (arith, h w refl)
next-id none (post_edited id at title content) v k h p = cc
next-id o (post_deleted id at) v k h p = ground arith
next-id o (user_registered _ _ _ _ _) v k h p = cc
next-id o (user_profile_updated _ _ _ _) v k h p = cc

module _ (F : Formats) (read_array : Items → Option DomainEvent) where
  -- What the writer guarantees of an event that it appended: it is on its own stream.
  abbrev pub IsAddressed : SdkEvent → Type 0
  IsAddressed event =
      (e : DomainEvent)
      → decode_or_warn F read_array event ≡ some e
      → event.entity_id ≡ stream_id F e

  existing-addressed :
      (state : PostsReadModel) (event : SdkEvent) (e : DomainEvent)
      → event.entity_id ≡ stream_id F e
      → existing F read_array state event ≡ Dict.get state (aggregate_id e)
  unfolding existing stream_id envelope_from_sdk
  existing-addressed state event e h =
      rw (h, prefix-split_once F (stream_kind e) (aggregate_id e), F.read-show_uuid) refl

  apply_to-next :
      (state : PostsReadModel) (event : SdkEvent) (e : DomainEvent) (o : Option PostView) (j : Uuid)
      → decode_or_warn F read_array event ≡ some e
      → stream_kind e ≡ post
      → ((v : PostView) → o ≡ some v → v.id ≡ aggregate_id e)
      → Dict.get state (aggregate_id e) ≡ o
      → Dict.get (apply_to F read_array state event o) j
        ≡ (if aggregate_id e == j then next o e else Dict.get state j)
  unfolding apply_to apply_post_sdk stream_kind aggregate_id apply_post finalize_post
  apply_to-next state event (post_created id author_id title content at) (some v) j d k i g =
      rw (d, i v refl) (get-insert state id j _)
  apply_to-next state event (post_created id author_id title content at) none j d k i g =
      rw d (get-insert state id j _)
  apply_to-next state event (post_edited id at title content) (some v) j d k i g =
      rw (d, i v refl) (get-insert state id j _)
  apply_to-next state event (post_edited id at title content) none j d k i g = rw d (ground arith)
  apply_to-next state event (post_deleted id at) (some v) j d k i g =
      rw (d, i v refl) (get-remove state id j)
  apply_to-next state event (post_deleted id at) none j d k i g = rw d (ground arith)
  apply_to-next state event (user_registered _ _ _ _ _) o j d k i g = cc
  apply_to-next state event (user_profile_updated _ _ _ _) o j d k i g = cc

  -- In a read model whose views stand under their own ids, an event that decodes to one of a post and
  -- is on its own stream changes the entry of its post as `next` says, and no other.
  pub apply_post_event-get :
      (state : PostsReadModel) (event : SdkEvent) (e : DomainEvent) (j : Uuid)
      → IsKeyed state
      → decode_or_warn F read_array event ≡ some e
      → stream_kind e ≡ post
      → event.entity_id ≡ stream_id F e
      → Dict.get (apply_post_event F read_array state event) j ≡ (
          if aggregate_id e == j
          then next (Dict.get state (aggregate_id e)) e
          else Dict.get state j)
  unfolding apply_post_event
  apply_post_event-get state event e j keyed d k a = rw (existing-addressed state event e a) (
      apply_to-next state event e (Dict.get state (aggregate_id e)) j d k
        (λ v h. keyed (aggregate_id e) v h) refl)

  apply_to-Foreign :
      (state : PostsReadModel) (event : SdkEvent) (o : Option PostView)
      → Foreign (decode_or_warn F read_array event)
      → apply_to F read_array state event o ≡ state
  unfolding apply_to apply_post_sdk
  apply_to-Foreign state event none h =
      if_handled-Foreign state (λ f. store_new state (finalize_post f)) new_post_folder _ h
  apply_to-Foreign state event (some v) h =
      if_handled-Foreign state (λ f. store_seeded state v.id (finalize_post f))
        (seed new_post_folder v) _ h

  -- An event that cannot be decoded, or is a user's, leaves the read model as it is.
  pub apply_post_event-Foreign :
      (state : PostsReadModel) (event : SdkEvent)
      → Foreign (decode_or_warn F read_array event)
      → apply_post_event F read_array state event ≡ state
  unfolding apply_post_event
  apply_post_event-Foreign state event h =
      apply_to-Foreign state event (existing F read_array state event) h

  -- Any event that is on its own stream, or is no post's, keeps each view under its own id.
  pub apply_post_event-IsKeyed :
      (state : PostsReadModel) (event : SdkEvent)
      → IsAddressed event
      → IsKeyed state
      → IsKeyed (apply_post_event F read_array state event)
  apply_post_event-IsKeyed state event addressed keyed =
      elim (Foreign-cases (decode_or_warn F read_array event)) [
        | inl h ↦ rw (apply_post_event-Foreign state event h) keyed
        | inr (e, d, k) ↦ λ j v h.
            let g = apply_post_event-get state event e j keyed d k (addressed e d) in
            ground (
              arith,
              g,
              keyed j v,
              next-id (Dict.get state (aggregate_id e)) e v k (λ w p. keyed (aggregate_id e) w p),
            )
      ]
