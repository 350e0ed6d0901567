-- ===== src/Api/Listing.antt =====
-- apps/api/src/presentation/handlers/posts.rs: `GET /posts`, a page of the sorted read model.
pub mod Pages
pub mod Streams
pub mod Fallback
use rust_v.Prelude.{
  ℕ, String, ◌++◌, Result, ok, err, Bool, Option, none, some, List, [], ◌∷◌, map, ltb, leb, ◌==◌,
  ◌&&◌, ◌||◌, if◌then◌else◌, take, drop,
}
use rust_v.Prelude.Dict
use rust_v.ApiTypes.{PostView, ListPostsQuery, resolved_limit, resolved_offset}
use rust_v.AllSource.Worker.{PostsReadModel}
use rust_v.AllSource.Folders.{post_folder}
use rust_v.AllSource.{SdkEvent, fold_events}
use rust_v.Events.Payload.{Items}
use rust_v.Events.{Formats, DomainEvent}
use rust_v.Prelude.Text.Order.{text_lt}
use rust_v.Api.{ApiError, sdk}

-- Whether the comparison of `sort_by` puts `a` before `b`, or finds them equal: newest first, then
-- by id.
unfoldable pub comes_first : PostView → PostView → Bool
comes_first a b = ltb b.created_at a.created_at || (b.created_at == a.created_at && leb a.id b.id)

-- `sort_by` is a stable sort.
insert_sorted : PostView → List PostView → List PostView
insert_sorted a [] = a ∷ []
insert_sorted a (b ∷ bs) =
    let later = insert_sorted a bs in if comes_first a b then a ∷ b ∷ bs else b ∷ later

unfoldable pub sort_posts : List PostView → List PostView
unfolding insert_sorted comes_first
sort_posts [] = []
sort_posts (a ∷ zs) = insert_sorted a (sort_posts zs)

-- `.skip(offset).take(limit)` of the sorted posts.
unfoldable pub page : ListPostsQuery → List PostView → List PostView
unfolding sort_posts
page query posts = take (resolved_limit query) (drop (resolved_offset query) (sort_posts posts))

-- The page when the worker runs: `guard.values().cloned().collect()`.
unfoldable pub list_from_worker : PostsReadModel → ListPostsQuery → List PostView
unfolding page
list_from_worker state query = page query (map (λ kv. kv.1) (Dict.keys_values state))

-- `BTreeMap<String, Vec<Event>>` of the events by their streams.
abbrev pub Groups : Type 0
Groups = List (String × List SdkEvent)

-- `by_entity.entry(event.entity_id).or_default().push(event)`
unfoldable pub push_event : SdkEvent → Groups → Groups
push_event event [] = (event.entity_id, event ∷ []) ∷ []
push_event event ((id, events) ∷ groups) =
    let later = push_event event groups in
    if text_lt event.entity_id id
    then (event.entity_id, event ∷ []) ∷ (id, events) ∷ groups
    else if text_lt id event.entity_id
    then (id, events) ∷ later
    else (id, events ++ event ∷ []) ∷ groups

unfoldable pub group_by_entity : Groups → List SdkEvent → Groups
unfolding push_event
group_by_entity groups [] = groups
group_by_entity groups (event ∷ events) = group_by_entity (push_event event groups) events

abbrev cons_some {ℓ} : {B : Type ℓ} → Option B → List B → List B
cons_some none bs = bs
cons_some (some b) bs = b ∷ bs

abbrev pub filter_map {ℓ κ} : {A : Type ℓ} {B : Type κ} → (A → Option B) → List A → List B
filter_map f [] = []
filter_map f (a ∷ zs) = cons_some (f a) (filter_map f zs)

module _ (F : Formats) (read_array : Items → Option DomainEvent) where
  -- What the scan of all post events is folded to.
  unfoldable pub fold_all_posts : List SdkEvent → List PostView
  unfolding group_by_entity
  fold_all_posts events =
      filter_map
        (λ (group : String × List SdkEvent). fold_events (post_folder F read_array) group.1)
        (group_by_entity [] events)

  -- `list`, with the worker's read model when it runs, and what a scan for the events of posts, with
  -- the limit of 10,000, answers when it does not.
  unfoldable pub list :
      {SdkError : Type 0}
      → Option PostsReadModel
      → Result SdkError (List SdkEvent)
      → ListPostsQuery
      → Result (ApiError SdkError) (List PostView)
  unfolding list_from_worker page fold_all_posts
  list (some state) answer query = ok (list_from_worker state query)
  list none (ok events) query = ok (page query (fold_all_posts events))
  list none (err e) query = err (sdk e)
