-- ===== src/ApiTypes.antt =====
-- crates/rv2-api-types/src/lib.rs: the read models, the requests and the page bounds.
pub mod Page
use rust_v.Prelude.{ℕ, String, Bool, Option, none, some, ltb, if◌then◌else◌, List}
use rust_v.Prelude.Opt.{unwrap_or}
use rust_v.Events.{Uuid, DateTime}

pub record PostView : Type 0 where
  pub id : Uuid
  pub author_id : Uuid
  pub title : String
  pub content : String
  pub created_at : DateTime
  pub updated_at : DateTime

pub record UserView : Type 0 where
  pub id : Uuid
  pub email : String
  pub full_name : Option String
  pub avatar_url : Option String
  pub created_at : DateTime
  pub updated_at : DateTime

pub record CreatePostRequest : Type 0 where
  pub title : String
  pub content : String

pub record ListPostsQuery : Type 0 where
  pub limit : Option ℕ
  pub offset : Option ℕ

pub record UpdatePostRequest : Type 0 where
  pub title : Option String
  pub content : Option String

pub record UpdateProfileRequest : Type 0 where
  pub full_name : Option (Option String)
  pub avatar_url : Option (Option String)

abbrev pub default_limit : ℕ
default_limit = 50

abbrev pub max_limit : ℕ
max_limit = 200

-- `Ord::clamp`
abbrev clamp : ℕ → ℕ → ℕ → ℕ
clamp x lo hi = if ltb x lo then lo else if ltb hi x then hi else x

unfoldable pub resolved_limit : ListPostsQuery → ℕ
resolved_limit q = clamp (unwrap_or q.limit default_limit) 1 max_limit

unfoldable pub resolved_offset : ListPostsQuery → ℕ
resolved_offset q = unwrap_or q.offset 0

pub record SessionView : Type 0 where
  pub user_id : Uuid
  pub email : String
  pub roles : List String
