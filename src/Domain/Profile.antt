-- ===== src/Domain/Profile.antt =====
-- crates/rv2-domain/src/user.rs: registration, the profile patch, and who may change a profile.
pub mod Commands
use text.Mathlib.Text.{starts_with}
use rust_v.Prelude.{
  ℕ, String, Bool, true, false, ◌||◌, Option, none, some, Result, ok, err, ◌>>=◌, ◌==◌,
  if◌then◌else◌,
}
use rust_v.Prelude.Text.{contains_char}
use rust_v.Events.{Uuid, DateTime, DomainEvent, user_registered, user_profile_updated}
use rust_v.ApiTypes.{UserView, UpdateProfileRequest}
use rust_v.Domain.{
  ValidationError, must_change_a_field, must_contain_at, must_be_http_url, Validated,
  non_empty_bounded,
}
use rust_v.Domain.Post.{check_optional, changes_nothing}

abbrev pub full_name_max : ℕ
full_name_max = 120

abbrev pub avatar_url_max : ℕ
avatar_url_max = 2000

abbrev pub email_max : ℕ
email_max = 320

pub check_at : String → Validated String
unfolding contains_char
check_at email =
    if contains_char b'@' email
    then ok email
    else err (record { field = "email"; reason = must_contain_at })

-- `to_lowercase` is Unicode's table, a parameter.
unfoldable pub register :
    (String → String) → Uuid → String → Option String → DateTime → Validated DomainEvent
unfolding check_at check_optional
register to_lowercase id email full_name now = do
  trimmed ← non_empty_bounded "email" email email_max
  address ← check_at trimmed
  name ← check_optional "full_name" full_name_max full_name
  ok (user_registered id (to_lowercase address) now name none)

-- `url.starts_with("https://") || url.starts_with("http://")`
unfoldable pub is_http : String → Bool
is_http url = starts_with url "https://" || starts_with url "http://"

pub check_http : String → Validated String
check_http url =
    if is_http url then ok url else err (record { field = "avatar_url"; reason = must_be_http_url })

pub check_name_patch : Option (Option String) → Validated (Option (Option String))
check_name_patch none = ok none
check_name_patch (some none) = ok (some none)
check_name_patch (some (some n)) = do
  name ← non_empty_bounded "full_name" n full_name_max
  ok (some (some name))

pub check_avatar_patch : Option (Option String) → Validated (Option (Option String))
check_avatar_patch none = ok none
check_avatar_patch (some none) = ok (some none)
check_avatar_patch (some (some u)) = do
  trimmed ← non_empty_bounded "avatar_url" u avatar_url_max
  url ← check_http trimmed
  ok (some (some url))

pub update_fields : Uuid → DateTime → UpdateProfileRequest → Bool → Validated DomainEvent
update_fields id now req true = err (record { field = "body"; reason = must_change_a_field })
update_fields id now req false = do
  full_name ← check_name_patch req.full_name
  avatar_url ← check_avatar_patch req.avatar_url
  ok (user_profile_updated id now full_name avatar_url)

unfoldable pub update_profile : Uuid → DateTime → UpdateProfileRequest → Validated DomainEvent
unfolding update_fields check_name_patch check_avatar_patch check_http changes_nothing
update_profile id now req = update_fields id now req (changes_nothing req.full_name req.avatar_url)

unfoldable pub can_edit_profile : Uuid → UserView → Bool
can_edit_profile actor target = actor == target.id
