-- ===== src/AllSource/Worker/Hydration.antt =====
-- crates/rv2-allsource/src/workers.rs: flushing the read model and hydrating a restarted one.
use rust_v.Prelude.{
  ℕ, String, ◌≡◌, ap, refl, ◌∙◌, Option, none, some, List, [], ◌∷◌, map, All, arith, ◌==◌,
  if◌then◌else◌,
}
use rust_v.Prelude.Dict
use rust_v.Prelude.Dict.{get-empty, get-insert, find_key, find_key-keys_values, keys_values-All}
use rust_v.Events.Payload.{Items}
use rust_v.Events.{
  Uuid, Formats, DomainEvent, post_deleted, post, stream, stream_id, aggregate_id, stream_kind,
}
use rust_v.ApiTypes.{PostView}
use rust_v.AllSource.{SdkEvent, decode_or_warn}
use rust_v.AllSource.Worker.{PostsReadModel, or_insert, hydrate, flush_entities, apply_post_event}
use rust_v.AllSource.Worker.Step.{
  IsKeyed, IsAddressed, apply_post_event-get, apply_post_event-IsKeyed,
}

-- The first view of `id` in a seed.
abbrev pub first_view : Uuid → List (String × PostView) → Option PostView
first_view id [] = none
first_view id ((_, view) ∷ rest) = if view.id == id then some view else first_view id rest

abbrev pub prefer : Option PostView → Option PostView → Option PostView
prefer (some v) o = some v
prefer none o = o

or_insert-get :
    (state : PostsReadModel) (view : PostView) (o : Option PostView) (id : Uuid)
    → Dict.get state view.id ≡ o
    → Dict.get (or_insert state view o) id
      ≡ prefer (Dict.get state id) (if view.id == id then some view else none)
unfolding or_insert
or_insert-get state view none id h = ground (arith, get-insert state view.id id view)
or_insert-get state view (some v) id h = ground arith

-- A hydrated read model holds for each id what the worker already folded, and only where that is
-- nothing the first view of the seed.
hydrate-get :
    (state : PostsReadModel) (seed : List (String × PostView)) (id : Uuid)
    → Dict.get (hydrate state seed) id ≡ prefer (Dict.get state id) (first_view id seed)
unfolding hydrate
hydrate-get state [] id = ground arith
hydrate-get state ((entity, view) ∷ rest) id = ground (
  arith,
  or_insert-get state view (Dict.get state view.id) id refl,
  hydrate-get (or_insert state view (Dict.get state view.id)) rest id,
)

first_view-map :
    (F : Formats) (id : Uuid) (l : List (Uuid × PostView))
    → All (λ kv. kv.1.id ≡ kv.0) l
    → first_view id (map (λ (kv : Uuid × PostView). (stream F post kv.1.id, kv.1)) l)
      ≡ find_key id l
unfolding find_key
first_view-map F id [] h = refl
first_view-map F id ((k, v) ∷ rest) (here, h) = ground (arith, first_view-map F id rest h)

IsKeyed-All :
    (state : PostsReadModel) (l : List (Uuid × PostView))
    → IsKeyed state
    → All (λ kv. Dict.get state kv.0 ≡ some kv.1) l
    → All (λ kv. kv.1.id ≡ kv.0) l
IsKeyed-All state [] keyed h = tt
IsKeyed-All state ((k, v) ∷ rest) keyed (here, h) = (keyed k v here, IsKeyed-All state rest keyed h)

first_view-flush_entities :
    (F : Formats) (state : PostsReadModel) (id : Uuid)
    → IsKeyed state
    → first_view id (flush_entities F state) ≡ Dict.get state id
unfolding flush_entities
first_view-flush_entities F state id keyed =
    first_view-map F id (Dict.keys_values state) (IsKeyed-All state _ keyed (keys_values-All state))
    ∙ find_key-keys_values state id

-- A cold worker that is hydrated with all that a read model flushes holds the same posts, when each
-- view of the read model stands under its own id.
pub hydrate-flush_entities :
    (F : Formats) (state : PostsReadModel) (id : Uuid)
    → IsKeyed state
    → Dict.get (hydrate Dict.empty (flush_entities F state)) id ≡ Dict.get state id
hydrate-flush_entities F state id keyed =
    hydrate-get Dict.empty (flush_entities F state) id
    ∙ ground (arith, get-empty {V = PostView} id, first_view-flush_entities F state id keyed)

deletion-IsAddressed :
    (F : Formats) (read_array : Items → Option DomainEvent) (event : SdkEvent) (id : Uuid) (at : ℕ)
    → decode_or_warn F read_array event ≡ some (post_deleted id at)
    → event.entity_id ≡ stream F post id
    → IsAddressed F read_array event
unfolding stream_id
deletion-IsAddressed F read_array event id at d a e h =
    let same : post_deleted id at ≡ e = ground arith in a ∙ ap (stream_id F) same

-- A worker whose views stand under their own ids folds the deletion of a post that it holds, an event
-- on the post's stream: it no longer has the post, and its flush says nothing of it. But a cold worker that is hydrated with the flush made before the deletion, as after
-- a restart past the deletion's event, has the post again.
pub restart-resurrects :
    (F : Formats) (read_array : Items → Option DomainEvent) (state : PostsReadModel)
    (event : SdkEvent) (id : Uuid) (at : ℕ) (view : PostView)
    → IsKeyed state
    → Dict.get state id ≡ some view
    → decode_or_warn F read_array event ≡ some (post_deleted id at)
    → event.entity_id ≡ stream F post id
    → (Dict.get (apply_post_event F read_array state event) id ≡ none)
      × (first_view id (flush_entities F (apply_post_event F read_array state event)) ≡ none)
      × (Dict.get (hydrate Dict.empty (flush_entities F state)) id ≡ some view)
unfolding stream_id aggregate_id stream_kind
restart-resurrects F read_array state event id at view keyed held d a =
    let gone : Dict.get (apply_post_event F read_array state event) id ≡ none = ground (
      arith,
      apply_post_event-get F read_array state event (post_deleted id at) id keyed d refl a,
    ) in
    let keyed' =
      apply_post_event-IsKeyed F read_array state event
        (deletion-IsAddressed F read_array event id at d a) keyed in
    (
      gone,
      first_view-flush_entities F (apply_post_event F read_array state event) id keyed' ∙ gone,
      hydrate-flush_entities F state id keyed ∙ held,
    )
