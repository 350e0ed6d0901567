-- ===== src/Domain/Profile/Commands.antt =====
-- crates/rv2-domain/src/user.rs: the events that the commands produce.
use rust_v.Prelude.{
  String, ◌≡◌, ◌≢◌, ◌⊎◌, inl, inr, refl, true, false, Bool-cases, Option, none, some, ok, err,
}
use rust_v.Prelude.Text.{trim, contains_char}
use rust_v.Events.{Uuid, DateTime, user_registered, user_profile_updated}
use rust_v.ApiTypes.{UpdateProfileRequest}
use rust_v.Domain.{ValidationError, must_change_a_field, must_be_http_url, must_contain_at}
use rust_v.Domain.Bounded.{Fits, Misfit, non_empty_bounded-cases}
use rust_v.Domain.Post.{changes_nothing}
use rust_v.Domain.Post.Commands.{FitsOption, MisfitOption, trim_option, check_optional-cases}
use rust_v.Domain.Profile.{
  full_name_max, avatar_url_max, email_max, register, is_http, check_http, check_name_patch,
  check_avatar_patch, update_profile,
}

-- What the event may hold for an avatar: a trimmed http(s) URL within bounds.
abbrev pub IsAvatar : String → Type 0
IsAvatar u = Fits avatar_url_max u × (is_http (trim u) ≡ true)

-- What a patch may ask of each field: nothing, a clear, or a value that fits.
abbrev pub NamePatch : Option (Option String) → Type 0
NamePatch (some (some n)) = Fits full_name_max n
NamePatch _ = Unit

abbrev pub AvatarPatch : Option (Option String) → Type 0
AvatarPatch (some (some u)) = IsAvatar u
AvatarPatch _ = Unit

abbrev pub trim_patch : Option (Option String) → Option (Option String)
trim_patch none = none
trim_patch (some o) = some (trim_option o)

-- The error for a field that does not fit.
abbrev pub NameMisfit : Option (Option String) → ValidationError → Type 0
NameMisfit (some (some n)) e = Misfit "full_name" full_name_max n e
NameMisfit _ e = ⊥

abbrev not_http : ValidationError
not_http = record { field = "avatar_url"; reason = must_be_http_url }

abbrev pub AvatarMisfit : Option (Option String) → ValidationError → Type 0
AvatarMisfit (some (some u)) e =
    Misfit "avatar_url" avatar_url_max u e
    ⊎ (Fits avatar_url_max u × (is_http (trim u) ≡ false) × (e ≡ not_http))
AvatarMisfit _ e = ⊥

check_name_patch-cases :
    (p : Option (Option String))
    → (NamePatch p × (check_name_patch p ≡ ok (trim_patch p)))
      ⊎ ((e : ValidationError) × NameMisfit p e × (check_name_patch p ≡ err e))
unfolding check_name_patch
check_name_patch-cases none = inl (tt, refl)
check_name_patch-cases (some none) = inl (tt, refl)
check_name_patch-cases (some (some n)) =
    elim (non_empty_bounded-cases "full_name" n full_name_max) [
      | inl (f, h) ↦ inl (f, rw h)
      | inr (e, m, h) ↦ inr (e, m, rw h)
    ]

check_avatar_patch-cases :
    (p : Option (Option String))
    → (AvatarPatch p × (check_avatar_patch p ≡ ok (trim_patch p)))
      ⊎ ((e : ValidationError) × AvatarMisfit p e × (check_avatar_patch p ≡ err e))
unfolding check_avatar_patch check_http
check_avatar_patch-cases none = inl (tt, refl)
check_avatar_patch-cases (some none) = inl (tt, refl)
check_avatar_patch-cases (some (some u)) =
    elim (non_empty_bounded-cases "avatar_url" u avatar_url_max) [
      | inr (e, m, h) ↦ inr (e, inl m, rw h)
      | inl (f, h) ↦ elim (Bool-cases (is_http (trim u))) [
        | inl k ↦ inl ((f, k), rw (h, k))
        | inr k ↦ inr (not_http, inr (f, k, refl), rw (h, k))
      ]
    ]

-- What `update_profile` does with a patch.
abbrev pub UpdateOutcome : Uuid → DateTime → UpdateProfileRequest → Type 0
UpdateOutcome id now req =
    ((req.full_name ≡ none)
      × (req.avatar_url ≡ none)
      × (update_profile id now req ≡ err (record { field = "body"; reason = must_change_a_field })))
    ⊎ (((req.full_name ≢ none) ⊎ (req.avatar_url ≢ none))
        × (NamePatch req.full_name × AvatarPatch req.avatar_url)
        × (update_profile id now req
            ≡ ok (
                user_profile_updated id now (trim_patch req.full_name)
                  (trim_patch req.avatar_url))))
    ⊎ ((e : ValidationError) × (NameMisfit req.full_name e
          ⊎ (NamePatch req.full_name × AvatarMisfit req.avatar_url e))
        × (update_profile id now req ≡ err e))

update_some :
    (id : Uuid) (now : DateTime) (req : UpdateProfileRequest)
    → changes_nothing req.full_name req.avatar_url ≡ false
    → ((req.full_name ≢ none) ⊎ (req.avatar_url ≢ none))
    → UpdateOutcome id now req
unfolding update_profile
update_some id now req c ne = elim (check_name_patch-cases req.full_name) [
  | inr (e, m, h) ↦ inr (inr (e, inl m, rw (c, h)))
  | inl (f, h) ↦ elim (check_avatar_patch-cases req.avatar_url) [
    | inr (e, m, k) ↦ inr (inr (e, inr (f, m), rw (c, h, k)))
    | inl (g, k) ↦ inr (inl (ne, (f, g), rw (c, h, k)))
  ]
]

update_parts :
    (id : Uuid) (now : DateTime) (full_name avatar_url : Option (Option String))
    → UpdateOutcome id now (record { full_name = full_name; avatar_url = avatar_url })
unfolding update_profile
update_parts id now none none = inl (refl, refl, refl)
update_parts id now (some n) avatar_url =
    update_some id now (record { full_name = some n; avatar_url = avatar_url }) refl (inl (λ e. cc))
update_parts id now none (some u) =
    update_some id now (record { full_name = none; avatar_url = some u }) refl (inr (λ e. cc))

-- `update_profile` refuses a patch that names no field. Otherwise, when each named field is a clear
-- or a value that fits (an avatar also an http or https URL), it gives the event in which "absent"
-- stays absent, a clear stays a clear and a value is trimmed; else the error is the name's, or the
-- avatar's when the name is in order.
update_profile_outcome :
    (id : Uuid) (now : DateTime) (req : UpdateProfileRequest) → UpdateOutcome id now req
update_profile_outcome id now req = update_parts id now req.full_name req.avatar_url

abbrev no_at : ValidationError
no_at = record { field = "email"; reason = must_contain_at }

-- What `register` does with an address and a name.
abbrev pub RegisterOutcome : (String → String) → Uuid → String → Option String → DateTime → Type 0
RegisterOutcome lower id email full_name now =
    ((Fits email_max email
        × (contains_char b'@' (trim email) ≡ true)
        × FitsOption full_name_max full_name)
      × (register lower id email full_name now
          ≡ ok (user_registered id (lower (trim email)) now (trim_option full_name) none)))
    ⊎ ((e : ValidationError) × (Misfit "email" email_max email e
          ⊎ ((contains_char b'@' (trim email) ≡ false) × (e ≡ no_at))
          ⊎ ((contains_char b'@' (trim email) ≡ true)
              × MisfitOption "full_name" full_name_max full_name e))
        × (register lower id email full_name now ≡ err e))

-- `register` succeeds when the address fits and holds an `@` and the name, if given, fits; its event
-- has the trimmed and lower-cased address, the trimmed name and no avatar. Else its error is the
-- address's length, the missing `@` or the name's length, in this order.
register_outcome :
    (lower : String → String) (id : Uuid) (email : String) (full_name : Option String)
    (now : DateTime)
    → RegisterOutcome lower id email full_name now
unfolding register
register_outcome lower id email full_name now =
    elim (non_empty_bounded-cases "email" email email_max) [
      | inr (e, m, h) ↦ inr (e, inl m, rw h)
      | inl (f, h) ↦ elim (Bool-cases (contains_char b'@' (trim email))) [
        | inr k ↦ inr (no_at, inr (inl (k, refl)), rw (h, k))
        | inl k ↦ elim (check_optional-cases "full_name" full_name_max full_name) [
          | inr (e, m, j) ↦ inr (e, inr (inr (k, m)), rw (h, k, j))
          | inl (g, j) ↦ inl ((f, k, g), rw (h, k, j))
        ]
      ]
    ]
