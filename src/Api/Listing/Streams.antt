-- ===== src/Api/Listing/Streams.antt =====
-- apps/api/src/presentation/handlers/posts.rs: an event is put with the others of its stream.
use mathlib.Core.List.{Memᴰ, append-nil}
use mathlib.Core.List.Memᴰ
use rust_v.Prelude.{
  String, ◌≡◌, refl, Bool, true, false, ◌⊎◌, inl, inr, List, [], ◌∷◌, ◌++◌, map, filter,
  filter-append, All, arith, Bool-cases,
}
use rust_v.Prelude.Sorted.{Ascending, insert, All-trans}
use rust_v.Prelude.Text.{str_eq, str_eq_iff, str_eq_refl}
use rust_v.Prelude.Text.Order.{text_lt, text_lt_irrefl, text_lt_connected, text_order}
use rust_v.AllSource.{SdkEvent}
use rust_v.Api.Listing.{Groups, push_event}

abbrev pub is_of : String → SdkEvent → Bool
is_of id event = str_eq event.entity_id id

abbrev pub entities : List SdkEvent → List String
entities events = map (λ (event : SdkEvent). event.entity_id) events

abbrev pub groups_of : List String → List SdkEvent → Groups
groups_of ids events = map (λ (id : String). (id, filter (is_of id) events)) ids

above-ne : (k id : String) → text_lt k id ≡ true → str_eq k id ≡ false
above-ne k id h = elim (Bool-cases (str_eq k id)) [
  | inr e ↦ e
  | inl e ↦ absurd (ground (arith, text_lt_irrefl id, rw ((str_eq_iff k id).0 e) at h))
]

below-ne : (k id : String) → text_lt id k ≡ true → str_eq k id ≡ false
below-ne k id h = elim (Bool-cases (str_eq k id)) [
  | inr e ↦ e
  | inl e ↦ absurd (ground (arith, text_lt_irrefl id, rw ((str_eq_iff k id).0 e) at h))
]

filter-other :
    (event : SdkEvent) (id : String) (events : List SdkEvent)
    → str_eq event.entity_id id ≡ false
    → filter (is_of id) (events ++ event ∷ []) ≡ filter (is_of id) events
filter-other event id events h =
    rw (filter-append (is_of id) events (event ∷ []), h) (append-nil (filter (is_of id) events))

filter-own :
    (event : SdkEvent) (id : String) (events : List SdkEvent)
    → str_eq event.entity_id id ≡ true
    → filter (is_of id) (events ++ event ∷ []) ≡ filter (is_of id) events ++ event ∷ []
filter-own event id events h = rw (filter-append (is_of id) events (event ∷ []), h) refl

-- An event of another stream leaves a group as it is.
others-same :
    (event : SdkEvent) (ids : List String) (events : List SdkEvent)
    → All (λ (id : String). text_lt event.entity_id id ≡ true) ids
    → groups_of ids (events ++ event ∷ []) ≡ groups_of ids events
others-same event [] events h = refl
others-same event (id ∷ ids) events (h, hs) =
    rw
      (
        filter-other event id events (above-ne event.entity_id id h),
        others-same event ids events hs,
      )
      refl

-- The event's stream is a group already, or no event before is of it.
abbrev pub IsPlaced : SdkEvent → List String → List SdkEvent → Type 0
IsPlaced event ids events = Memᴰ event.entity_id ids ⊎ (filter (is_of event.entity_id) events ≡ [])

not-above :
    (k : String) (ids : List String)
    → All (λ (id : String). text_lt k id ≡ true) ids
    → Memᴰ k ids
    → ⊥
not-above k [] h m = Memᴰ.not-nil m
not-above k (id ∷ ids) (h, hs) m = elim (Memᴰ.cases_cons m) [
  | inl e ↦ absurd (ground (arith, text_lt_irrefl id, rw e at h))
  | inr n ↦ not-above k ids hs n
]

unplaced :
    (event : SdkEvent) (ids : List String) (events : List SdkEvent)
    → All (λ (id : String). text_lt event.entity_id id ≡ true) ids
    → IsPlaced event ids events
    → filter (is_of event.entity_id) events ≡ []
unplaced event ids events h (inl m) = absurd (not-above event.entity_id ids h m)
unplaced event ids events h (inr e) = e

IsPlaced-later :
    (event : SdkEvent) (id : String) (ids : List String) (events : List SdkEvent)
    → text_lt id event.entity_id ≡ true
    → IsPlaced event (id ∷ ids) events
    → IsPlaced event ids events
IsPlaced-later event id ids events h (inr e) = inr e
IsPlaced-later event id ids events h (inl m) = elim (Memᴰ.cases_cons m) [
  | inl e ↦ absurd (ground (arith, text_lt_irrefl id, rw e at h))
  | inr n ↦ inl n
]

new_group :
    (event : SdkEvent) (ids : List String) (events : List SdkEvent)
    → All (λ (id : String). text_lt event.entity_id id ≡ true) ids
    → IsPlaced event ids events
    → (event.entity_id, event ∷ []) ∷ groups_of ids events
      ≡ groups_of (event.entity_id ∷ ids) (events ++ event ∷ [])
new_group event ids events h placed =
    rw
      (
        filter-own event event.entity_id events (str_eq_refl event.entity_id),
        unplaced event ids events h placed,
        others-same event ids events h,
      )
      refl

pub push_event-groups_of :
    (event : SdkEvent) (ids : List String) (events : List SdkEvent)
    → Ascending text_lt ids
    → IsPlaced event ids events
    → push_event event (groups_of ids events)
      ≡ groups_of (insert text_lt event.entity_id ids) (events ++ event ∷ [])
unfolding push_event insert
push_event-groups_of event [] events h placed = new_group event [] events tt placed
push_event-groups_of event (id ∷ ids) events (h, hs) placed =
    elim (Bool-cases (text_lt event.entity_id id)) [
      | inl first ↦ rw first (
          new_group event (id ∷ ids) events
            (first, All-trans text_lt text_order event.entity_id id ids first h) placed)
      | inr k ↦ elim (Bool-cases (text_lt id event.entity_id)) [
        | inl later ↦
            rw
              (
                k,
                later,
                filter-other event id events (below-ne event.entity_id id later),
                push_event-groups_of event ids events hs
                    (IsPlaced-later event id ids events later placed),
              )
              refl
        | inr same ↦
            let e : event.entity_id ≡ id = text_lt_connected event.entity_id id k same in
            let own : str_eq event.entity_id id ≡ true = (str_eq_iff event.entity_id id).1 e in
            rw (k, same, filter-own event id events own, others-same event ids events (rw e h)) refl
      ]
    ]
