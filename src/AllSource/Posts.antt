-- ===== src/AllSource/Posts.antt =====
-- crates/rv2-allsource/src/folders.rs: what folding a stream of posts' events yields.
use rust_v.Prelude.{
  max, String, ◌≡◌, ◌⊎◌, inl, inr, refl, ◌∙◌, true, false, Option, none, some, List, [], ◌∷◌, ◌++◌,
  map, arith, Option-cases,
}
use rust_v.Events.Payload.{Items}
use rust_v.Events.{
  Uuid, DateTime, Formats, DomainEvent, user_registered, user_profile_updated, post_created,
  post_edited, post_deleted, stream_kind, user, post,
}
use rust_v.Prelude.Opt.{unwrap_or, last_some, unwrap_or-last_some}
use rust_v.ApiTypes.{PostView}
use rust_v.AllSource.{SdkEvent, decode_or_warn, apply_all, fold_events}
use rust_v.AllSource.Folders.{
  PostFolder, new_post_folder, edit_view, apply_post, finalize_post, or_ignore, apply_post_sdk,
  post_folder,
}

-- Folding events that are decoded already.
unfoldable pub run_post : PostFolder → List DomainEvent → PostFolder
run_post f [] = f
run_post f (e ∷ es) = run_post (apply_post f e).0 es

abbrev pub cons_some : Option DomainEvent → List DomainEvent → List DomainEvent
cons_some none es = es
cons_some (some e) es = e ∷ es

module _ (F : Formats) (read_array : Items → Option DomainEvent) where
  -- The events that can be decoded.
  unfoldable pub decoded : List SdkEvent → List DomainEvent
  decoded [] = []
  decoded (event ∷ events) = cons_some (decode_or_warn F read_array event) (decoded events)

  pub apply_all-run_post :
      (f : PostFolder) (events : List SdkEvent)
      → apply_all (post_folder F read_array) f events ≡ run_post f (decoded events)
  unfolding apply_all decoded run_post apply_post_sdk
  apply_all-run_post f [] = refl
  apply_all-run_post f (event ∷ events) = elim (Option-cases (decode_or_warn F read_array event)) [
    | inl h ↦ rw h (apply_all-run_post f events)
    | inr (e, h) ↦ rw h (apply_all-run_post (apply_post f e).0 events)
  ]

-- What a stream edits, as plain data.
pub record Edit : Type 0 where
  pub id : Uuid
  pub at : DateTime
  pub title : Option String
  pub content : Option String

abbrev pub edit_event : Edit → DomainEvent
edit_event e = post_edited e.id e.at e.title e.content

abbrev pub latest : List Edit → DateTime
latest [] = 0
latest (e ∷ es) = max e.at (latest es)

abbrev pub summary : PostView → List Edit → PostView
summary v es = record v {
  title = unwrap_or (last_some (map (λ e. e.title) es)) v.title;
  content = unwrap_or (last_some (map (λ e. e.content) es)) v.content;
  updated_at = max v.updated_at (latest es);
}

abbrev pub live : PostView → PostFolder
live v = record { inner = some v; deleted = false }

run_post-edits :
    (v : PostView) (es : List Edit) → run_post (live v) (map edit_event es) ≡ live (summary v es)
unfolding run_post apply_post
run_post-edits v [] = ground arith
run_post-edits v (e ∷ es) =
    run_post-edits (edit_view e.at e.title e.content v) es
    ∙ ground (
      arith,
      unwrap_or-last_some e.title (map (λ (e : Edit). e.title) es) v.title,
      unwrap_or-last_some e.content (map (λ (e : Edit). e.content) es) v.content,
    )

-- A second application of an event changes neither the folder nor the answer.
apply_post_idem :
    (f : PostFolder) (e : DomainEvent) → apply_post (apply_post f e).0 e ≡ apply_post f e
unfolding apply_post
apply_post_idem f (post_created id author_id title content at) = refl
apply_post_idem f (post_edited id at title content) = ground arith
apply_post_idem f _ = refl

apply_post-deleted :
    (f : PostFolder) (e : DomainEvent) → f.deleted ≡ true → (apply_post f e).0.deleted ≡ true
unfolding apply_post
apply_post-deleted f (post_deleted id at) h = refl
apply_post-deleted f _ h = h

-- Once it is set, the deletion mark stays.
run_post-deleted :
    (f : PostFolder) (es : List DomainEvent) → f.deleted ≡ true → (run_post f es).deleted ≡ true
unfolding run_post
run_post-deleted f [] h = h
run_post-deleted f (e ∷ es) h = run_post-deleted (apply_post f e).0 es (apply_post-deleted f e h)

run_post-append :
    (f : PostFolder) (xs ys : List DomainEvent)
    → run_post f (xs ++ ys) ≡ run_post (run_post f xs) ys
unfolding run_post
run_post-append f [] ys = refl
run_post-append f (x ∷ xs) ys = run_post-append (apply_post f x).0 xs ys

-- What is no event of a post.
abbrev pub Foreign : Option DomainEvent → Type 0
Foreign none = Unit
Foreign (some e) = stream_kind e ≡ user

or_ignore-answer :
    (f : PostFolder) (o : Option DomainEvent)
    → (Foreign o × (or_ignore apply_post f o ≡ (f, false)))
      ⊎ ((e : DomainEvent) × (o ≡ some e)
          × (stream_kind e ≡ post)
          × (or_ignore apply_post f o ≡ ((apply_post f e).0, true)))
unfolding or_ignore apply_post stream_kind
or_ignore-answer f none = inl (tt, refl)
or_ignore-answer f (some (user_registered _ _ _ _ _)) = inl (refl, refl)
or_ignore-answer f (some (user_profile_updated _ _ _ _)) = inl (refl, refl)
or_ignore-answer f (some (post_created id author_id title content at)) =
    inr (post_created id author_id title content at, refl, refl, refl)
or_ignore-answer f (some (post_edited id at title content)) =
    inr (post_edited id at title content, refl, refl, refl)
or_ignore-answer f (some (post_deleted id at)) = inr (post_deleted id at, refl, refl, refl)

module _ (F : Formats) (read_array : Items → Option DomainEvent) where
  -- An event that cannot be decoded, or is a user's, leaves the folder as it is and is answered
  -- with `false`; an event of a post is answered with `true`.
  apply_post_sdk-answer :
      (f : PostFolder) (event : SdkEvent)
      → (Foreign (decode_or_warn F read_array event)
          × (apply_post_sdk F read_array f event ≡ (f, false)))
        ⊎ ((e : DomainEvent) × (decode_or_warn F read_array event ≡ some e)
            × (stream_kind e ≡ post)
            × (apply_post_sdk F read_array f event ≡ ((apply_post f e).0, true)))
  unfolding apply_post_sdk
  apply_post_sdk-answer f event = or_ignore-answer f (decode_or_warn F read_array event)

  -- Events that decode to a creation and any number of edits behind it fold to the view that has the last title and
  -- the last content that were set, the creation's id, author and time, and the latest time of all.
  pub fold_events-history :
      (events : List SdkEvent) (id author_id : Uuid) (title content : String) (at : DateTime)
      (edits : List Edit)
      → decoded F read_array events
        ≡ post_created id author_id title content at ∷ map edit_event edits
      → fold_events (post_folder F read_array) events
        ≡ some (record {
          id = id;
          author_id = author_id;
          title = unwrap_or (last_some (map (λ e. e.title) edits)) title;
          content = unwrap_or (last_some (map (λ e. e.content) edits)) content;
          created_at = at;
          updated_at = max at (latest edits);
        })
  unfolding fold_events run_post apply_post finalize_post
  fold_events-history events id author_id title content at edits h =
      rw (apply_all-run_post F read_array, h) (rw run_post-edits refl)

  -- Events among which one decodes to a deletion fold to no post.
  pub fold_events-latch :
      (events : List SdkEvent) (before after : List DomainEvent) (id : Uuid) (at : DateTime)
      → decoded F read_array events ≡ before ++ post_deleted id at ∷ after
      → fold_events (post_folder F read_array) events ≡ none
  unfolding fold_events run_post finalize_post apply_post
  fold_events-latch events before after id at h =
      rw (apply_all-run_post F read_array, h, run_post-append)
        (ground (
          arith,
          run_post-deleted (apply_post (run_post new_post_folder before) (post_deleted id at)).0
              after refl,
        ))
