-- ===== src/Api/Users.antt =====
-- apps/api/src/presentation/handlers/users.rs: the handlers of a profile. The SDK's
-- `query_and_fold`, which reads a user's stream with no tenant, is a parameter.
pub mod Owner
use rust_v.Prelude.{String, Bool, not, map, Option, none, some, Result, ok, err, if◌then◌else◌}
use rust_v.Events.Payload.{Items}
use rust_v.Events.{Uuid, DateTime, Formats, DomainEvent, user, stream}
use rust_v.ApiTypes.{SessionView, UserView, UpdateProfileRequest}
use rust_v.Shared.Roles.{AuthUser, as_str}
use rust_v.Domain.Profile as ProfileRules
use rust_v.AllSource.Core.{Core}
use rust_v.AllSource.Writer.{append}
use rust_v.Api.{ApiError, not_found, sdk, forbidden, Action, ◌>>=◌, ◌>>◌, raise, validated, written}

-- `GET /me`: the session, without the store.
unfoldable pub me : AuthUser → SessionView
me actor = record { user_id = actor.id; email = actor.email; roles = map as_str actor.roles }

-- `.await?.ok_or(NotFound)`
found_user :
    {SdkError : Type 0} → Result SdkError (Option UserView) → Result (ApiError SdkError) UserView
found_user (ok (some view)) = ok view
found_user (ok none) = err (not_found "user")
found_user (err e) = err (sdk e)

module _ (F : Formats) (read_array : Items → Option DomainEvent) {Store SdkError : Type 0}
    (core : Core Store SdkError)
    (query_and_fold : Store → String → Result SdkError (Option UserView)) where
  unfoldable pub load : Uuid → Action Store SdkError UserView
  unfolding found_user
  load id s = (found_user (query_and_fold s (stream F user id)), s)

  unfoldable pub get_one : Uuid → Action Store SdkError UserView
  get_one id = load id

  unfoldable pub update :
      Uuid → Uuid → DateTime → UpdateProfileRequest → Action Store SdkError UserView
  update actor id now request = do
    existing ← load id
    if not (ProfileRules.can_edit_profile actor existing) then raise forbidden else do
      event ← validated (ProfileRules.update_profile id now request)
      written (append F read_array core event)
      load id
