-- ===== src/Api/Posts/Effects.antt =====
-- apps/api/src/presentation/handlers/posts.rs: what an accepted request changes in the store, seen
-- through the next read.
use rust_v.Prelude.{
  ◌<◌, String, ◌≡◌, inl, inr, refl, ◌∙◌, ap, true, Option, none, some, List, [], ◌∷◌, ◌++◌, ok, err,
  length, arith, ==_iff,
}
use rust_v.Prelude.Text.{trim}
use rust_v.Events.Payload.{Items}
use rust_v.Events.{
  Uuid, DateTime, Formats, DomainEvent, post_created, post_edited, post_deleted, post, stream,
  stream_id, stream_kind, aggregate_id,
}
use rust_v.ApiTypes.{PostView, CreatePostRequest, UpdatePostRequest}
use rust_v.Domain.Post as PostRules
use rust_v.Domain.Bounded.{Fits, Fits-Misfit}
use rust_v.Domain.Post.Commands.{trim_option, create_outcome, edit_outcome}
use rust_v.AllSource.{SdkEvent, decode_or_warn, EventFolder, apply_all, fold_events}
use rust_v.AllSource.Core.{Core, CoreLaws}
use rust_v.AllSource.Folders.{
  PostFolder, new_post_folder, edit_view, apply_post, finalize_post, apply_post_sdk, post_folder,
}
use rust_v.AllSource.Writer.{append}
use rust_v.AllSource.Writer.Append.{append-query}
use rust_v.Api.{not_found, ◌>>◌, written}
use rust_v.Api.Posts.{query_limit, fold_entity, or_not_found, load, create, update, delete}

apply_all-append :
    {F S : Type 0} (folder : EventFolder F S) (f : F) (xs ys : List SdkEvent)
    → apply_all folder f (xs ++ ys) ≡ apply_all folder (apply_all folder f xs) ys
unfolding apply_all
apply_all-append folder f [] ys = refl
apply_all-append folder f (x ∷ xs) ys = apply_all-append folder (folder.apply f x).0 xs ys

finalize-edit :
    (f : PostFolder) (v : PostView) (id : Uuid) (at : DateTime) (title content : Option String)
    → finalize_post f ≡ some v
    → finalize_post (apply_post f (post_edited id at title content)).0
      ≡ some (edit_view at title content v)
unfolding finalize_post apply_post
finalize-edit f v id at title content h = ground arith

finalize-delete :
    (f : PostFolder) (id : Uuid) (at : DateTime)
    → finalize_post (apply_post f (post_deleted id at)).0 ≡ none
unfolding finalize_post apply_post
finalize-delete f id at = refl

author_may_edit : (v : PostView) → PostRules.can_edit_post v.author_id v ≡ true
unfolding PostRules.can_edit_post
author_may_edit v = (==_iff v.author_id v.author_id).1 refl

module _ (F : Formats) (read_array : Items → Option DomainEvent) {Store SdkError : Type 0}
    (core : Core Store SdkError) (tenant : String) (laws : CoreLaws core tenant) where
  apply_post_sdk-decoded :
      (f : PostFolder) (event : SdkEvent) (e : DomainEvent)
      → decode_or_warn F read_array event ≡ some e
      → (apply_post_sdk F read_array f event).0 ≡ (apply_post f e).0
  unfolding apply_post_sdk
  apply_post_sdk-decoded f event e d = rw d

  folder_of : List SdkEvent → PostFolder
  folder_of events = apply_all (post_folder F read_array) new_post_folder events

  -- One more event at the end of a stream.
  fold_events-snoc :
      (events : List SdkEvent) (event : SdkEvent) (e : DomainEvent)
      → decode_or_warn F read_array event ≡ some e
      → fold_events (post_folder F read_array) (events ++ event ∷ [])
        ≡ finalize_post (apply_post (folder_of events) e).0
  unfolding fold_events apply_all folder_of
  fold_events-snoc events event e d = ap finalize_post (
      apply_all-append (post_folder F read_array) new_post_folder events (event ∷ [])
      ∙ apply_post_sdk-decoded (folder_of events) event e d)

  -- Reading a post behind an append to its stream.
  load-append :
      (e : DomainEvent) (id : Uuid) (s : Store) (receipt : String) (events : List SdkEvent)
      → stream_id F e ≡ stream F post id
      → (append F read_array core e s).0 ≡ ok receipt
      → core.query_events s (stream F post id) tenant query_limit ≡ some events
      → length events < query_limit
      → load F read_array core tenant id (append F read_array core e s).1 ≡ (
        or_not_found "post" (some (finalize_post (apply_post (folder_of events) e).0)),
        (append F read_array core e s).1,
      )
  unfolding load fold_entity
  load-append e id s receipt events at_id accepted q room =
      let (event, _, d, after) =
        append-query F read_array core tenant laws e s receipt query_limit events accepted
          (rw at_id q) room in
      rw (rw at_id at after) (rw (fold_events-snoc events event e d))

  written-load :
      (e : DomainEvent) (id : Uuid) (s : Store) (receipt : String)
      → (append F read_array core e s).0 ≡ ok receipt
      → (written (append F read_array core e) >> load F read_array core tenant id) s
        ≡ load F read_array core tenant id (append F read_array core e s).1
  written-load e id s receipt accepted = rw accepted

  load-live :
      (id : Uuid) (s : Store) (events : List SdkEvent) (v : PostView)
      → core.query_events s (stream F post id) tenant query_limit ≡ some events
      → fold_events (post_folder F read_array) events ≡ some v
      → load F read_array core tenant id s ≡ (ok v, s)
  unfolding load fold_entity or_not_found
  load-live id s events v q live = rw (q, live)

  module _ (id : Uuid) (now : DateTime) (s : Store) (receipt : String) where
    -- In a store with the laws, when the id's stream is empty, the request's texts fit and the append
    -- succeeds, `create` changes the store by that append alone and answers with the
    -- view of the new post: the trimmed texts, the actor as the author, and the given time twice.
    pub create_effect :
        (actor : Uuid) (request : CreatePostRequest)
        → Fits PostRules.title_max request.title
        → Fits PostRules.content_max request.content
        → (append F read_array core
            (post_created id actor (trim request.title) (trim request.content) now)
            s).0
          ≡ ok receipt
        → core.query_events s (stream F post id) tenant query_limit ≡ some []
        → create F read_array core tenant id actor now request s ≡ (
          ok (record {
            id = id;
            author_id = actor;
            title = trim request.title;
            content = trim request.content;
            created_at = now;
            updated_at = now;
          }),
          (append F read_array core
              (post_created id actor (trim request.title) (trim request.content) now)
              s).1,
        )
    unfolding create apply_all apply_post finalize_post folder_of or_not_found stream_id stream_kind
        aggregate_id
    create_effect actor request t c accepted q =
        let e = post_created id actor (trim request.title) (trim request.content) now in
        elim (create_outcome id actor now request) [
          | inr (x, inl m, h) ↦ absurd (Fits-Misfit "title" request.title PostRules.title_max x t m)
          | inr (x, inr (_, m), h) ↦
              absurd (Fits-Misfit "content" request.content PostRules.content_max x c m)
          | inl (_, _, h) ↦ rw h (
              written-load e id s receipt accepted
              ∙ load-append e id s receipt [] refl accepted q (omega arith))
        ]

    module _ (events : List SdkEvent) (v : PostView)
        (q : core.query_events s (stream F post id) tenant query_limit ≡ some events)
        (room : length events < query_limit)
        (live : fold_events (post_folder F read_array) events ≡ some v) where
      edit_event : UpdatePostRequest → DomainEvent
      edit_event request =
          post_edited id now (trim_option request.title) (trim_option request.content)

      edit_event-eq :
          (request : UpdatePostRequest) (e : DomainEvent)
          → PostRules.edit id now request ≡ ok e
          → e ≡ edit_event request
      unfolding edit_event
      edit_event-eq request e h = elim (edit_outcome id now request) [
        | inl (_, _, k) ↦ cc
        | inr (inl (_, _, k)) ↦ ground arith
        | inr (inr (x, _, k)) ↦ cc
      ]

      -- In a store with the laws, when the post's stream is answered with fewer events than the limit and
      -- folds to a view, the patch is in order and the append succeeds, the author's `update` changes the
      -- store by that append alone and answers with the view in which the named fields have the trimmed values and the others are as they were.
      pub update_effect :
          (request : UpdatePostRequest) (e : DomainEvent)
          → PostRules.edit id now request ≡ ok e
          → (append F read_array core e s).0 ≡ ok receipt
          → update F read_array core tenant v.author_id id now request s ≡ (
            ok (edit_view now (trim_option request.title) (trim_option request.content) v),
            (append F read_array core e s).1,
          )
      unfolding update edit_event fold_events folder_of or_not_found stream_id stream_kind
          aggregate_id
      update_effect request e edited accepted =
          let same : e ≡ edit_event request = edit_event-eq request e edited in
          let final : finalize_post (apply_post (folder_of events) e).0
              ≡ some (edit_view now (trim_option request.title) (trim_option request.content) v) =
            ap (λ (x : DomainEvent). finalize_post (apply_post (folder_of events) x).0) same
            ∙ finalize-edit (folder_of events) v id now (trim_option request.title)
                (trim_option request.content) live in
          rw (load-live id s events v q live, author_may_edit v, edited)
            (written-load e id s receipt accepted
              ∙ load-append e id s receipt events (rw same refl) accepted q room
              ∙ rw final)

      -- In a store with the laws, when the post's stream is answered with fewer events than the limit and
      -- folds to a view, and the append of the deletion succeeds, the author's `delete` succeeds, changes
      -- the store by that append alone, and reading the post behind it finds none.
      pub delete_effect :
          (append F read_array core (post_deleted id now) s).0 ≡ ok receipt
          → (delete F read_array core tenant v.author_id id now s
              ≡ (ok tt, (append F read_array core (post_deleted id now) s).1))
            × (load F read_array core tenant id (append F read_array core (post_deleted id now) s).1
                ≡ (err (not_found "post"), (append F read_array core (post_deleted id now) s).1))
      unfolding delete PostRules.delete PostRules.can_delete_post or_not_found stream_id stream_kind
          aggregate_id
      delete_effect accepted = (
        rw (load-live id s events v q live, author_may_edit v) (rw accepted),
        load-append (post_deleted id now) id s receipt events refl accepted q room
            ∙ rw finalize-delete,
      )
