-- ===== src/Domain/Post.antt =====
-- crates/rv2-domain/src/post.rs: the post commands, and who may change a post.
pub mod Commands
use rust_v.Prelude.{ℕ, String, Bool, true, false, Option, none, some, Result, ok, err, ◌>>=◌, ◌==◌}
use rust_v.Events.{Uuid, DateTime, DomainEvent, post_created, post_edited, post_deleted}
use rust_v.ApiTypes.{PostView, CreatePostRequest, UpdatePostRequest}
use rust_v.Domain.{ValidationError, must_change_a_field, Validated, non_empty_bounded}

abbrev pub title_max : ℕ
title_max = 200

abbrev pub content_max : ℕ
content_max = 20000

unfoldable pub create : Uuid → Uuid → DateTime → CreatePostRequest → Validated DomainEvent
create id author_id now req = do
  title ← non_empty_bounded "title" req.title title_max
  content ← non_empty_bounded "content" req.content content_max
  ok (post_created id author_id title content now)

-- `opt.map(|t| non_empty_bounded(…)).transpose()`
unfoldable pub check_optional : String → ℕ → Option String → Validated (Option String)
check_optional name max none = ok none
check_optional name max (some s) = do t ← non_empty_bounded name s max; ok (some t)

-- `req.title.is_none() && req.content.is_none()`
unfoldable pub changes_nothing {ℓ κ} : {A : Type ℓ} {B : Type κ} → Option A → Option B → Bool
changes_nothing none none = true
changes_nothing _ _ = false

edit_fields : Uuid → DateTime → UpdatePostRequest → Bool → Validated DomainEvent
edit_fields id now req true = err (record { field = "body"; reason = must_change_a_field })
edit_fields id now req false = do
  title ← check_optional "title" title_max req.title
  content ← check_optional "content" content_max req.content
  ok (post_edited id now title content)

unfoldable pub edit : Uuid → DateTime → UpdatePostRequest → Validated DomainEvent
unfolding edit_fields check_optional changes_nothing
edit id now req = edit_fields id now req (changes_nothing req.title req.content)

unfoldable pub delete : Uuid → DateTime → DomainEvent
delete id now = post_deleted id now

unfoldable pub can_edit_post : Uuid → PostView → Bool
can_edit_post actor post = actor == post.author_id

unfoldable pub can_delete_post : Uuid → PostView → Bool
unfolding can_edit_post
can_delete_post actor post = can_edit_post actor post
