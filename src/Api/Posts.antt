-- ===== src/Api/Posts.antt =====
-- apps/api/src/presentation/handlers/posts.rs: the handlers of one post. The fresh id and the time
-- are arguments; the analytics event of `create` leaves the store and the answer as they are.
pub mod Guards
pub mod Effects
use rust_v.Prelude.{ℕ, String, Bool, not, Option, none, some, List, Result, ok, err, if◌then◌else◌}
use rust_v.Events.Payload.{Items}
use rust_v.Events.{Uuid, DateTime, Formats, DomainEvent, post, stream}
use rust_v.ApiTypes.{PostView, CreatePostRequest, UpdatePostRequest}
use rust_v.Domain.Post as PostRules
use rust_v.AllSource.{SdkEvent, EventFolder, fold_events}
use rust_v.AllSource.Core.{Core}
use rust_v.AllSource.Folders.{post_folder}
use rust_v.AllSource.Writer.{append}
use rust_v.Api.{
  ApiError, not_found, forbidden, Action, ◌>>=◌, ◌>>◌, pure, raise, validated, written,
}

-- The limit of `tenant_query::fold_entity`.
abbrev pub query_limit : ℕ
query_limit = 10000

-- `tenant_query::fold_entity`: `none` where the query fails.
unfoldable pub fold_entity :
    {S V : Type 0} → EventFolder S V → Option (List SdkEvent) → Option (Option V)
fold_entity folder none = none
fold_entity folder (some events) = some (fold_events folder events)

-- `.map_err(|_| NotFound)?.ok_or(NotFound)`
or_not_found : {V SdkError : Type 0} → String → Option (Option V) → Result (ApiError SdkError) V
or_not_found kind none = err (not_found kind)
or_not_found kind (some none) = err (not_found kind)
or_not_found kind (some (some view)) = ok view

module _ (F : Formats) (read_array : Items → Option DomainEvent) {Store SdkError : Type 0}
    (core : Core Store SdkError) (tenant : String) where
  unfoldable pub load : Uuid → Action Store SdkError PostView
  unfolding fold_entity or_not_found
  load id s = (
    or_not_found "post" (
        fold_entity (post_folder F read_array)
          (core.query_events s (stream F post id) tenant query_limit)),
    s,
  )

  unfoldable pub create :
      Uuid → Uuid → DateTime → CreatePostRequest → Action Store SdkError PostView
  create id actor now request = do
    event ← validated (PostRules.create id actor now request)
    written (append F read_array core event)
    load id

  unfoldable pub get_one : Uuid → Action Store SdkError PostView
  get_one id = load id

  unfoldable pub update :
      Uuid → Uuid → DateTime → UpdatePostRequest → Action Store SdkError PostView
  update actor id now request = do
    existing ← load id
    if not (PostRules.can_edit_post actor existing) then raise forbidden else do
      event ← validated (PostRules.edit id now request)
      written (append F read_array core event)
      load id

  unfoldable pub delete : Uuid → Uuid → DateTime → Action Store SdkError (Unit {0})
  delete actor id now = do
    existing ← load id
    if not (PostRules.can_delete_post actor existing)
        then raise forbidden
        else do written (append F read_array core (PostRules.delete id now)); pure tt
