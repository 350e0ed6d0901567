-- ===== src/Api/Users/Owner.antt =====
-- apps/api/src/presentation/handlers/users.rs: only its owner changes a profile.
use rust_v.Prelude.{
  String, ◌≡◌, ◌≢◌, ◌⊎◌, inl, inr, true, false, Bool-cases, Option, Result, ok, err, Result-cases,
  ◌==◌, ==_iff, arith,
}
use rust_v.Events.Payload.{Items}
use rust_v.Events.{Uuid, DateTime, Formats, DomainEvent, user, stream}
use rust_v.ApiTypes.{UserView, UpdateProfileRequest}
use rust_v.Domain.{ValidationError}
use rust_v.Domain.Profile as ProfileRules
use rust_v.AllSource.Core.{Core}
use rust_v.AllSource.Writer.{append}
use rust_v.Api.{ApiError, forbidden, validation, ◌>>◌, written}
use rust_v.Api.Users.{found_user, load, update}

can_edit_profile-cases :
    (actor : Uuid) (v : UserView)
    → ((ProfileRules.can_edit_profile actor v ≡ true) × (actor ≡ v.id))
      ⊎ ((ProfileRules.can_edit_profile actor v ≡ false) × (actor ≢ v.id))
unfolding ProfileRules.can_edit_profile
can_edit_profile-cases actor v = elim (Bool-cases (actor == v.id)) [
  | inl same ↦ inl (same, (==_iff actor v.id).0 same)
  | inr other ↦ inr (other, λ e. ground arith)
]

module _ (F : Formats) (read_array : Items → Option DomainEvent) {Store SdkError : Type 0}
    (core : Core Store SdkError)
    (query_and_fold : Store → String → Result SdkError (Option UserView)) (actor id : Uuid)
    (now : DateTime) (s : Store) where
  -- How a run of the profile's `update` ends. In the first three ways the store is unchanged.
  pub data ProfileRun (request : UpdateProfileRequest) : Type 0 where
    unread :
        (e : ApiError SdkError)
        → load F read_array core query_and_fold id s ≡ (err e, s)
        → update F read_array core query_and_fold actor id now request s ≡ (err e, s)
        → ProfileRun request
    refused :
        (v : UserView)
        → load F read_array core query_and_fold id s ≡ (ok v, s)
        → actor ≢ v.id
        → update F read_array core query_and_fold actor id now request s ≡ (err forbidden, s)
        → ProfileRun request
    rejected :
        (v : UserView) (x : ValidationError)
        → load F read_array core query_and_fold id s ≡ (ok v, s)
        → actor ≡ v.id
        → ProfileRules.update_profile id now request ≡ err x
        → update F read_array core query_and_fold actor id now request s ≡ (err (validation x), s)
        → ProfileRun request
    accepted :
        (v : UserView) (e : DomainEvent)
        → load F read_array core query_and_fold id s ≡ (ok v, s)
        → actor ≡ v.id
        → ProfileRules.update_profile id now request ≡ ok e
        → update F read_array core query_and_fold actor id now request s
          ≡ (written (append F read_array core e) >> load F read_array core query_and_fold id) s
        → ProfileRun request

  -- The profile's `update` changes the store only by appending the event of the patch, and only when
  -- the profile was read, the actor is its owner and the patch is in order.
  pub update-ProfileRun : (request : UpdateProfileRequest) → ProfileRun request
  unfolding update load
  update-ProfileRun request =
      elim (Result-cases (found_user (query_and_fold s (stream F user id)))) [
        | inr (e, h) ↦ unread e (rw h) (rw h)
        | inl (v, h) ↦ elim (can_edit_profile-cases actor v) [
          | inr (no_edit, other) ↦ refused v (rw h) other (rw (h, no_edit))
          | inl (may_edit, same) ↦
              elim (Result-cases (ProfileRules.update_profile id now request)) [
                | inl (e, k) ↦ accepted v e (rw h) same k (rw (h, may_edit, k))
                | inr (x, k) ↦ rejected v x (rw h) same k (rw (h, may_edit, k))
              ]
        ]
      ]
