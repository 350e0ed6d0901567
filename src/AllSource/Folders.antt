-- ===== src/AllSource/Folders.antt =====
-- crates/rv2-allsource/src/folders.rs: the folders of posts and of users.
use rust_v.Prelude.{max, String, Bool, true, false, Option, none, some, if◌then◌else◌}
use rust_v.Events.Payload.{Items}
use rust_v.Events.{
  DateTime, Formats, DomainEvent, user_registered, user_profile_updated, post_created, post_edited,
  post_deleted,
}
use rust_v.Prelude.Opt.{unwrap_or}
use rust_v.ApiTypes.{PostView, UserView}
use rust_v.AllSource.{SdkEvent, EventFolder, decode_or_warn}

pub record PostFolder : Type 0 where
  pub inner : Option PostView
  pub deleted : Bool

abbrev pub new_post_folder : PostFolder
new_post_folder = record { inner = none; deleted = false }

-- The body of `if let Some(post) = self.inner.as_mut()`.
unfoldable pub edit_view : DateTime → Option String → Option String → PostView → PostView
edit_view at title content post = record post {
  title = unwrap_or title post.title;
  content = unwrap_or content post.content;
  updated_at = max post.updated_at at;
}

abbrev edit_inner : DateTime → Option String → Option String → Option PostView → Option PostView
edit_inner at title content none = none
edit_inner at title content (some post) = some (edit_view at title content post)

-- `match decoded { … }` of `PostFolder::apply`.
unfoldable pub apply_post : PostFolder → DomainEvent → PostFolder × Bool
unfolding edit_view
apply_post f (post_created id author_id title content at) = (
  record f {
    inner = some (record {
      id = id;
      author_id = author_id;
      title = title;
      content = content;
      created_at = at;
      updated_at = at;
    });
  },
  true,
)
apply_post f (post_edited _ at title content) =
    (record f { inner = edit_inner at title content f.inner }, true)
apply_post f (post_deleted _ _) = (record f { deleted = true }, true)
apply_post f (user_registered _ _ _ _ _) = (f, false)
apply_post f (user_profile_updated _ _ _ _) = (f, false)

unfoldable pub finalize_post : PostFolder → Option PostView
finalize_post f = if f.deleted then none else f.inner

pub record UserFolder : Type 0 where
  pub inner : Option UserView

abbrev pub new_user_folder : UserFolder
new_user_folder = record { inner = none }

unfoldable pub patch_view :
    DateTime → Option (Option String) → Option (Option String) → UserView → UserView
patch_view at full_name avatar_url user = record user {
  full_name = unwrap_or full_name user.full_name;
  avatar_url = unwrap_or avatar_url user.avatar_url;
  updated_at = max user.updated_at at;
}

abbrev patch_inner :
    DateTime → Option (Option String) → Option (Option String) → Option UserView → Option UserView
patch_inner at full_name avatar_url none = none
patch_inner at full_name avatar_url (some user) = some (patch_view at full_name avatar_url user)

-- `match decoded { … }` of `UserFolder::apply`.
unfoldable pub apply_user : UserFolder → DomainEvent → UserFolder × Bool
unfolding patch_view
apply_user f (user_registered id email at full_name avatar_url) = (
  record {
    inner = some (record {
      id = id;
      email = email;
      full_name = full_name;
      avatar_url = avatar_url;
      created_at = at;
      updated_at = at;
    });
  },
  true,
)
apply_user f (user_profile_updated _ at full_name avatar_url) =
    (record { inner = patch_inner at full_name avatar_url f.inner }, true)
apply_user f (post_created _ _ _ _ _) = (f, false)
apply_user f (post_edited _ _ _ _) = (f, false)
apply_user f (post_deleted _ _) = (f, false)

unfoldable pub finalize_user : UserFolder → Option UserView
finalize_user f = f.inner

-- `let Some(decoded) = decode_or_warn(event) else { return false; }`
unfoldable pub or_ignore :
    {A : Type 0} → (A → DomainEvent → A × Bool) → A → Option DomainEvent → A × Bool
or_ignore step f none = (f, false)
or_ignore step f (some decoded) = step f decoded

module _ (F : Formats) (read_array : Items → Option DomainEvent) where
  unfoldable pub apply_post_sdk : PostFolder → SdkEvent → PostFolder × Bool
  unfolding or_ignore
  apply_post_sdk f event = or_ignore apply_post f (decode_or_warn F read_array event)

  unfoldable pub apply_user_sdk : UserFolder → SdkEvent → UserFolder × Bool
  unfolding or_ignore
  apply_user_sdk f event = or_ignore apply_user f (decode_or_warn F read_array event)

  abbrev pub post_folder : EventFolder PostFolder PostView
  post_folder = record {
    initial = new_post_folder;
    apply = apply_post_sdk;
    finalize = finalize_post;
  }

  abbrev pub user_folder : EventFolder UserFolder UserView
  user_folder = record {
    initial = new_user_folder;
    apply = apply_user_sdk;
    finalize = finalize_user;
  }
