-- ===== src/Api/Listing/Fallback.antt =====
-- apps/api/src/presentation/handlers/posts.rs: `fold_all_posts` folds each stream by itself.
use mathlib.Core.List.{Memᴰ, append-nil, append_assoc, map-append}
use mathlib.Core.List.Memᴰ
use rust_v.Prelude.{
  String, ◌≡◌, refl, sym, ap, ◌∙◌, ◌↔◌, inl, inr, Option, List, [], ◌∷◌, ◌++◌, filter,
}
use rust_v.Prelude.Sorted.{Ascending, insert, insert-Ascending, mem-insert, mem-of_insert}
use rust_v.Prelude.Members.{mem-filter, List-cases}
use rust_v.Prelude.Text.{str_eq_iff}
use rust_v.Prelude.Text.Order.{text_lt, text_order}
use rust_v.Events.Payload.{Items}
use rust_v.Events.{Formats, DomainEvent}
use rust_v.AllSource.{SdkEvent, fold_events}
use rust_v.AllSource.Folders.{post_folder}
use rust_v.Api.Listing.{Groups, push_event, group_by_entity, filter_map, fold_all_posts}
use rust_v.Api.Listing.Streams.{is_of, entities, groups_of, IsPlaced, push_event-groups_of}

-- The groups are those of the streams that the events are on.
record IsCovered (ids : List String) (events : List SdkEvent) : Type 0 where
  ascending : Ascending text_lt ids
  covered : (id : String) → Memᴰ id ids ↔ Memᴰ id (entities events)

placed :
    (event : SdkEvent) (ids : List String) (events : List SdkEvent)
    → IsCovered ids events
    → IsPlaced event ids events
placed event ids events c = elim (List-cases (filter (is_of event.entity_id) events)) [
  | inl e ↦ inr e
  | inr (other, rest, e) ↦
      let (m, own) = mem-filter (is_of event.entity_id) other events (rw e (Memᴰ.head refl)) in
      let same : other.entity_id ≡ event.entity_id =
        (str_eq_iff other.entity_id event.entity_id).0 own in
      inl ((c.covered event.entity_id).1 (Memᴰ.cast (sym same) (mem-entities other events m)))
]
  where
    mem-entities :
        (other : SdkEvent) (events : List SdkEvent)
        → Memᴰ other events
        → Memᴰ other.entity_id (entities events)
    mem-entities other [] m = absurd (Memᴰ.not-nil m)
    mem-entities other (x ∷ xs) m = elim (Memᴰ.cases_cons m) [
      | inl e ↦ Memᴰ.head (ap (λ (y : SdkEvent). y.entity_id) e)
      | inr n ↦ Memᴰ.tail (mem-entities other xs n)
    ]

entities-append :
    (events : List SdkEvent) (event : SdkEvent)
    → entities (events ++ event ∷ []) ≡ entities events ++ event.entity_id ∷ []
entities-append events event = rw map-append refl

IsCovered-next :
    (event : SdkEvent) (ids : List String) (events : List SdkEvent)
    → IsCovered ids events
    → IsCovered (insert text_lt event.entity_id ids) (events ++ event ∷ [])
IsCovered-next event ids events c = record {
  ascending = insert-Ascending text_lt text_order event.entity_id ids c.ascending;
  covered = λ id. rw (entities-append events event) (
    λ m. elim (mem-insert text_lt event.entity_id id ids m) [
      | inl e ↦ Memᴰ.append_right (entities events) (Memᴰ.head e)
      | inr k ↦ Memᴰ.append_left (event.entity_id ∷ []) ((c.covered id).0 k)
    ],
    λ m.
        mem-of_insert text_lt text_order event.entity_id id ids
          (elim (Memᴰ.append_cases (entities events) m) [
            | inl k ↦ inr ((c.covered id).1 k)
            | inr k ↦ elim (Memᴰ.cases_cons k) [ inl e ↦ inl e | inr n ↦ absurd (Memᴰ.not-nil n) ]
          ]),
  );
}

group_by_entity-cons :
    (groups : Groups) (event : SdkEvent) (events : List SdkEvent)
    → group_by_entity groups (event ∷ events) ≡ group_by_entity (push_event event groups) events
unfolding group_by_entity
group_by_entity-cons groups event events = refl

grouped :
    (ids : List String) (before events : List SdkEvent)
    → IsCovered ids before
    → (ids' : List String) × IsCovered ids' (before ++ events)
      × (group_by_entity (groups_of ids before) events ≡ groups_of ids' (before ++ events))
grouped ids before [] c = rw (append-nil before) (ids, c, unfold group_by_entity in refl)
grouped ids before (event ∷ events) c =
    let (ids', c', e) =
      grouped (insert text_lt event.entity_id ids) (before ++ event ∷ []) events
        (IsCovered-next event ids before c) in
    let step = push_event-groups_of event ids before c.ascending (placed event ids before c) in
    (
      ids',
      rw (append_assoc) at c',
      group_by_entity-cons (groups_of ids before) event events
          ∙ ap (λ (g : Groups). group_by_entity g events) step
          ∙ e
          ∙ ap (λ (es : List SdkEvent). groups_of ids' es)
              (append_assoc before (event ∷ []) events),
    )

filter_map-groups_of :
    {B : Type 0} (f : List SdkEvent → Option B) (ids : List String) (events : List SdkEvent)
    → filter_map (λ (group : String × List SdkEvent). f group.1) (groups_of ids events)
      ≡ filter_map (λ (id : String). f (filter (is_of id) events)) ids
filter_map-groups_of f [] events = refl
filter_map-groups_of f (id ∷ ids) events = rw (filter_map-groups_of f ids events) refl

-- The scan's events are folded stream by stream: the streams are those that the events are on, in
-- order and once each, and each post is the fold of all the events of its stream and of no others, in
-- the order of the scan.
pub fold_all_posts_streams :
    (F : Formats) (read_array : Items → Option DomainEvent) (events : List SdkEvent)
    → (ids : List String) × Ascending text_lt ids
      × ((id : String) → Memᴰ id ids ↔ Memᴰ id (entities events))
      × (fold_all_posts F read_array events
          ≡ filter_map
              (λ (id : String). fold_events (post_folder F read_array) (filter (is_of id) events))
              ids)
unfolding fold_all_posts
fold_all_posts_streams F read_array events =
    let none_yet : IsCovered [] [] = record { ascending = tt; covered = λ id. (λ m. m, λ m. m) } in
    let (ids, c, e) = grouped [] [] events none_yet in
    (
      ids,
      c.ascending,
      c.covered,
      rw e (filter_map-groups_of (fold_events (post_folder F read_array)) ids events),
    )
