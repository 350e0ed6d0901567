-- ===== src/Api/Posts/Guards.antt =====
-- apps/api/src/presentation/handlers/posts.rs: who may change a post, and when nothing is written.
use rust_v.Prelude.{
  String, ◌≡◌, ◌≢◌, ◌⊎◌, inl, inr, refl, true, false, Option, none, some, Result, ok, err,
  Result-cases, Bool-cases, ◌==◌, ==_iff, arith,
}
use rust_v.Events.Payload.{Items}
use rust_v.Events.{Uuid, DateTime, Formats, DomainEvent, post, stream, post_deleted}
use rust_v.ApiTypes.{PostView, UpdatePostRequest}
use rust_v.Domain.{ValidationError}
use rust_v.Domain.Post as PostRules
use rust_v.AllSource.Core.{Core}
use rust_v.AllSource.Writer.{append}
use rust_v.Api.{ApiError, forbidden, validation, not_found, ◌>>◌, pure, written}
use rust_v.AllSource.Folders.{post_folder}
use rust_v.Api.Posts.{query_limit, fold_entity, or_not_found, load, update, delete}

-- `actor` is the author, as the predicate of the domain layer decides it.
can_edit-cases :
    (actor : Uuid) (v : PostView)
    → ((PostRules.can_edit_post actor v ≡ true) × (actor ≡ v.author_id))
      ⊎ ((PostRules.can_edit_post actor v ≡ false) × (actor ≢ v.author_id))
unfolding PostRules.can_edit_post
can_edit-cases actor v = elim (Bool-cases (actor == v.author_id)) [
  | inl same ↦ inl (same, (==_iff actor v.author_id).0 same)
  | inr other ↦ inr (other, λ e. ground arith)
]

or_not_found-cases :
    {Store SdkError : Type 0} (o : Option (Option PostView)) (s : Store)
    → ((v : PostView) × ◌≡◌ {A = Result (ApiError SdkError) PostView × Store}
          (or_not_found "post" o, s)
          (ok v, s))
      ⊎ (◌≡◌ {A = Result (ApiError SdkError) PostView × Store}
          (or_not_found "post" o, s)
          (err (not_found "post"), s))
unfolding or_not_found
or_not_found-cases none s = inr refl
or_not_found-cases (some none) s = inr refl
or_not_found-cases (some (some v)) s = inl (v, refl)

module _ (F : Formats) (read_array : Items → Option DomainEvent) {Store SdkError : Type 0}
    (core : Core Store SdkError) (tenant : String) where
  load-keeps :
      (id : Uuid) (s : Store)
      → ((v : PostView) × (load F read_array core tenant id s ≡ (ok v, s)))
        ⊎ (load F read_array core tenant id s ≡ (err (not_found "post"), s))
  unfolding load
  load-keeps id s =
      or_not_found-cases
        (fold_entity (post_folder F read_array)
          (core.query_events s (stream F post id) tenant query_limit))
        s

  module _ (actor id : Uuid) (now : DateTime) (s : Store) where
    -- How a run of `update` ends. In the first three ways the store is unchanged.
    pub data UpdateRun (request : UpdatePostRequest) : Type 0 where
      unread :
          load F read_array core tenant id s ≡ (err (not_found "post"), s)
          → update F read_array core tenant actor id now request s ≡ (err (not_found "post"), s)
          → UpdateRun request
      refused :
          (v : PostView)
          → load F read_array core tenant id s ≡ (ok v, s)
          → actor ≢ v.author_id
          → update F read_array core tenant actor id now request s ≡ (err forbidden, s)
          → UpdateRun request
      rejected :
          (v : PostView) (x : ValidationError)
          → load F read_array core tenant id s ≡ (ok v, s)
          → actor ≡ v.author_id
          → PostRules.edit id now request ≡ err x
          → update F read_array core tenant actor id now request s ≡ (err (validation x), s)
          → UpdateRun request
      accepted :
          (v : PostView) (e : DomainEvent)
          → load F read_array core tenant id s ≡ (ok v, s)
          → actor ≡ v.author_id
          → PostRules.edit id now request ≡ ok e
          → update F read_array core tenant actor id now request s
            ≡ (written (append F read_array core e) >> load F read_array core tenant id) s
          → UpdateRun request

    -- `update` changes the store only by appending the event of the patch, and only when the post was
    -- read, the actor is its author and the patch is in order. It answers "not found" when the post
    -- cannot be read, "forbidden" to anyone but the author, and the patch's error to the author.
    pub update-UpdateRun : (request : UpdatePostRequest) → UpdateRun request
    unfolding update
    update-UpdateRun request = elim (load-keeps id s) [
      | inr h ↦ unread h (rw h)
      | inl (v, h) ↦ elim (can_edit-cases actor v) [
        | inr (no_edit, other) ↦ refused v h other (rw (h, no_edit))
        | inl (may_edit, same) ↦ elim (Result-cases (PostRules.edit id now request)) [
          | inl (e, k) ↦ accepted v e h same k (rw (h, may_edit, k))
          | inr (x, k) ↦ rejected v x h same k (rw (h, may_edit, k))
        ]
      ]
    ]

    -- How a run of `delete` ends.
    pub data DeleteRun : Type 0 where
      unread :
          load F read_array core tenant id s ≡ (err (not_found "post"), s)
          → delete F read_array core tenant actor id now s ≡ (err (not_found "post"), s)
          → DeleteRun
      refused :
          (v : PostView)
          → load F read_array core tenant id s ≡ (ok v, s)
          → actor ≢ v.author_id
          → delete F read_array core tenant actor id now s ≡ (err forbidden, s)
          → DeleteRun
      accepted :
          (v : PostView)
          → load F read_array core tenant id s ≡ (ok v, s)
          → actor ≡ v.author_id
          → delete F read_array core tenant actor id now s
            ≡ (written (append F read_array core (post_deleted id now)) >> pure tt) s
          → DeleteRun

    -- `delete` changes the store only by appending the deletion of the post that it names, and only
    -- when that post was read and the actor is its author.
    pub delete-DeleteRun : DeleteRun
    unfolding delete PostRules.can_delete_post PostRules.delete
    delete-DeleteRun = elim (load-keeps id s) [
      | inr h ↦ unread h (rw h)
      | inl (v, h) ↦ elim (can_edit-cases actor v) [
        | inr (no_edit, other) ↦ refused v h other (rw (h, no_edit))
        | inl (may_edit, same) ↦ accepted v h same (rw (h, may_edit))
      ]
    ]
