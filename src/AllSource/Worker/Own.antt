-- ===== src/AllSource/Worker/Own.antt =====
-- The events of one post in a log, as a query by entity id returns them.
use rust_v.Prelude.{
  ◌≡◌, ◌⊎◌, inl, inr, true, false, Option, none, some, List, ◌∷◌, Bool-cases, filter,
}
use rust_v.Prelude.Text.{str_eq}
use rust_v.Events.Payload.{Items}
use rust_v.Events.{Uuid, Formats, DomainEvent, post, stream}
use rust_v.AllSource.{SdkEvent, decode_or_warn}
use rust_v.AllSource.Posts.{decoded}

module _ (F : Formats) (read_array : Items → Option DomainEvent) (id : Uuid) where
  -- The events of one post's stream, as a query by entity id returns them.
  unfoldable pub of_stream : List SdkEvent → List SdkEvent
  of_stream events = filter (λ event. str_eq event.entity_id (stream F post id)) events

  unfoldable pub own : List SdkEvent → List DomainEvent
  unfolding of_stream
  own events = decoded F read_array (of_stream events)

  pub own-skip :
      (event : SdkEvent) (log : List SdkEvent)
      → (decode_or_warn F read_array event ≡ none)
        ⊎ (str_eq event.entity_id (stream F post id) ≡ false)
      → own (event ∷ log) ≡ own log
  unfolding own decoded
  own-skip event log (inr other) = rw other
  own-skip event log (inl bad) = elim (Bool-cases (str_eq event.entity_id (stream F post id))) [
    | inl same ↦ rw (same, bad)
    | inr other ↦ rw other
  ]

  pub own-cons :
      (event : SdkEvent) (e : DomainEvent) (log : List SdkEvent)
      → decode_or_warn F read_array event ≡ some e
      → str_eq event.entity_id (stream F post id) ≡ true
      → own (event ∷ log) ≡ e ∷ own log
  unfolding own decoded
  own-cons event e log d same = rw (same, d)
