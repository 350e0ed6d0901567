-- ===== src/Tests/Worker.antt =====
-- The worker and the folders on a concrete log.
use rust_v.Prelude.{◌≡◌, refl, max, none, some, List, [], ◌∷◌, ◌++◌, All, map, arith}
use rust_v.Prelude.Opt.{last_some, unwrap_or}
use rust_v.Prelude.Dict
use rust_v.Prelude.Dict.{get-empty, get-insert}
use rust_v.Events.{DomainEvent, stream, stream_kind, stream_id, aggregate_id}
use rust_v.ApiTypes.{PostView}
use rust_v.Events.Codec.{from_value, to_value}
use rust_v.Events.Wire.{event_type, decode}
use rust_v.AllSource.{SdkEvent, decode_or_warn, fold_events}
use rust_v.AllSource.Folders.{post_folder}
use rust_v.AllSource.Posts.{Edit, latest, decoded, fold_events-history}
use rust_v.AllSource.Users.{Patch}
use rust_v.AllSource.Worker.{PostsReadModel, apply_post_event, run_worker, hydrate, flush_entities}
use rust_v.AllSource.Worker.Step.{IsKeyed, IsAddressed}
use rust_v.AllSource.Worker.Own.{of_stream, own}
use rust_v.AllSource.Worker.Agreement.{IsSettled, worker-eq-fold_on_read}
use rust_v.AllSource.Worker.Divergence.{worker-ne-fold_on_read}
use rust_v.AllSource.Worker.Hydration.{first_view, hydrate-flush_entities, restart-resurrects}
use rust_v.Tests.{
  formats, no_array, written_event, decode-written_event, written_event-IsAddressed, created,
  edited, deleted, other, registered,
}

abbrev log : List SdkEvent
log =
    written_event created
    ∷ written_event other
    ∷ written_event edited
    ∷ written_event registered
    ∷ written_event deleted
    ∷ []

log-IsAddressed : All (IsAddressed formats no_array) log
log-IsAddressed = (
  written_event-IsAddressed created,
  (
    written_event-IsAddressed other,
    (
      written_event-IsAddressed edited,
      (written_event-IsAddressed registered, (written_event-IsAddressed deleted, tt)),
    ),
  ),
)

log-IsSettled : IsSettled (own formats no_array 3 log)
unfolding own of_stream decoded decode_or_warn stream_id stream stream_kind aggregate_id decode
    from_value to_value event_type
log-IsSettled = ((λ h. cc), ((λ h. cc), ((λ h. tt), tt)))

worker-eq-fold_on_read_example :
    Dict.get (run_worker formats no_array Dict.empty log) 3
    ≡ fold_events (post_folder formats no_array) (of_stream formats no_array 3 log)
worker-eq-fold_on_read_example =
    worker-eq-fold_on_read formats no_array 3 log log-IsAddressed log-IsSettled

abbrev first_edit : Edit
first_edit = record { id = 3; at = 12; title = some "New title"; content = none }

decoded-two :
    (a b : DomainEvent)
    → decoded formats no_array (written_event a ∷ written_event b ∷ []) ≡ a ∷ b ∷ []
unfolding decoded
decoded-two a b = rw (decode-written_event a, decode-written_event b) refl

fold_events-history_example :
    fold_events (post_folder formats no_array) (written_event created ∷ written_event edited ∷ [])
    ≡ some (record {
      id = 3;
      author_id = 5;
      title = unwrap_or (last_some (map (λ (e : Edit). e.title) (first_edit ∷ []))) "Title";
      content = unwrap_or (last_some (map (λ (e : Edit). e.content) (first_edit ∷ []))) "Body";
      created_at = 10;
      updated_at = max 10 (latest (first_edit ∷ []));
    })
fold_events-history_example =
    fold_events-history formats no_array (written_event created ∷ written_event edited ∷ []) 3 5
      "Title" "Body" 10 (first_edit ∷ []) (decoded-two created edited)

abbrev cleared : Patch
cleared = record {
  id = 5;
  at = 13;
  full_name = some none;
  avatar_url = some (some "https://example.org/a.png");
}

abbrev view : PostView
view = record {
  id = 3;
  author_id = 5;
  title = "Title";
  content = "Body";
  created_at = 10;
  updated_at = 10;
}

abbrev one_post : PostsReadModel
one_post = Dict.insert Dict.empty 3 view

one_post-get : Dict.get one_post 3 ≡ some view
one_post-get = ground (arith, get-insert Dict.empty 3 3 view)

one_post-IsKeyed : IsKeyed one_post
one_post-IsKeyed k v h = ground (arith, get-insert Dict.empty 3 k view, get-empty {V = PostView} k)

hydrate-flush_entities_example :
    Dict.get (hydrate Dict.empty (flush_entities formats one_post)) 3 ≡ Dict.get one_post 3
hydrate-flush_entities_example = hydrate-flush_entities formats one_post 3 one_post-IsKeyed

restart-resurrects_example :
    (Dict.get (apply_post_event formats no_array one_post (written_event deleted)) 3 ≡ none)
    × (first_view 3 (
          flush_entities formats
            (apply_post_event formats no_array one_post (written_event deleted)))
        ≡ none)
    × (Dict.get (hydrate Dict.empty (flush_entities formats one_post)) 3 ≡ some view)
unfolding stream_id stream_kind aggregate_id
restart-resurrects_example =
    restart-resurrects formats no_array one_post (written_event deleted) 3 14 view one_post-IsKeyed
      one_post-get (decode-written_event deleted) refl

worker-ne-fold_on_read_example :
    (Dict.get
        (run_worker formats no_array Dict.empty
          ((written_event created ∷ []) ++ written_event deleted ∷ written_event created ∷ []))
        3
      ≡ some view)
    × (fold_events (post_folder formats no_array) (
          of_stream formats no_array 3
            ((written_event created ∷ []) ++ written_event deleted ∷ written_event created ∷ []))
        ≡ none)
unfolding stream_id stream_kind aggregate_id
worker-ne-fold_on_read_example =
    worker-ne-fold_on_read formats no_array 3 (written_event created ∷ []) (written_event deleted)
      (written_event created) 14 10 5 "Title" "Body" (written_event-IsAddressed created, tt) refl
      refl (decode-written_event deleted) (decode-written_event created)
