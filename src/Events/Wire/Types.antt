-- ===== src/Events/Wire/Types.antt =====
-- crates/rv2-events/src/wire.rs: the wire types name the variants, and the families split the list.
use rust_v.Prelude.{
  String, ◌≡◌, ◌↔◌, Bool, true, refl, List, arith, any, if◌then◌else◌, sym, ap, ◌∙◌,
}
use rust_v.Prelude.Text.{str_eq}
use rust_v.Events.{
  DomainEvent, user_registered, user_profile_updated, post_created, post_edited, post_deleted,
  stream_kind, user, post,
}
use rust_v.Events.Wire.{event_type, all_wire_types, post_wire_types, user_wire_types}

-- The variants of `DomainEvent`, without their fields.
pub data Variant : Type 0 where
  registered updated created edited deleted : Variant

abbrev pub variant : DomainEvent → Variant
variant (user_registered _ _ _ _ _) = registered
variant (user_profile_updated _ _ _ _) = updated
variant (post_created _ _ _ _ _) = created
variant (post_edited _ _ _ _) = edited
variant (post_deleted _ _) = deleted

abbrev pub listed : String → List String → Bool
listed s l = any (λ t. str_eq s t) l

abbrev variant_of_wire : String → Variant
variant_of_wire s =
    if str_eq s "identity.user.registered"
    then registered
    else if str_eq s "identity.user.profile_updated"
    then updated
    else if str_eq s "content.post.created"
    then created
    else if str_eq s "content.post.edited"
    then edited
    else deleted

variant_of_wire-event_type : (e : DomainEvent) → variant_of_wire (event_type e) ≡ variant e
unfolding event_type
variant_of_wire-event_type (user_registered _ _ _ _ _) = refl
variant_of_wire-event_type _ = refl

abbrev wire_of_variant : Variant → String
wire_of_variant registered = "identity.user.registered"
wire_of_variant updated = "identity.user.profile_updated"
wire_of_variant created = "content.post.created"
wire_of_variant edited = "content.post.edited"
wire_of_variant deleted = "content.post.deleted"

event_type-wire_of_variant : (e : DomainEvent) → event_type e ≡ wire_of_variant (variant e)
unfolding event_type
event_type-wire_of_variant (user_registered _ _ _ _ _) = refl
event_type-wire_of_variant _ = refl

-- Two events have the same wire type exactly when they are of the same variant.
event_type-eq_iff : (e e' : DomainEvent) → (event_type e ≡ event_type e') ↔ (variant e ≡ variant e')
event_type-eq_iff e e' = (
  λ p. sym (variant_of_wire-event_type e) ∙ ap variant_of_wire p ∙ variant_of_wire-event_type e',
  λ p. event_type-wire_of_variant e ∙ ap wire_of_variant p ∙ sym (event_type-wire_of_variant e'),
)

-- An event's wire type is in the list of posts' types exactly when its stream is a post's, in the
-- list of users' types exactly when its stream is a user's, and always in the whole list.
event_type-listed :
    (e : DomainEvent)
    → (listed (event_type e) all_wire_types ≡ true)
      × ((listed (event_type e) post_wire_types ≡ true) ↔ (stream_kind e ≡ post))
      × ((listed (event_type e) user_wire_types ≡ true) ↔ (stream_kind e ≡ user))
unfolding event_type stream_kind
event_type-listed (user_registered _ _ _ _ _) = ground arith
event_type-listed _ = ground arith
