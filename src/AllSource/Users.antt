-- ===== src/AllSource/Users.antt =====
-- crates/rv2-allsource/src/folders.rs: what folding a stream of a user's events yields.
use rust_v.Prelude.{
  max, String, ◌≡◌, refl, ◌∙◌, Option, some, List, [], ◌∷◌, map, arith, Option-cases, inl, inr,
}
use rust_v.Prelude.Opt.{unwrap_or, last_some, unwrap_or-last_some}
use rust_v.Events.Payload.{Items}
use rust_v.Events.{Uuid, DateTime, Formats, DomainEvent, user_registered, user_profile_updated}
use rust_v.ApiTypes.{UserView}
use rust_v.AllSource.{SdkEvent, decode_or_warn, apply_all, fold_events}
use rust_v.AllSource.Folders.{
  UserFolder, patch_view, apply_user, finalize_user, apply_user_sdk, user_folder,
}
use rust_v.AllSource.Posts.{decoded}

run_user : UserFolder → List DomainEvent → UserFolder
run_user f [] = f
run_user f (e ∷ es) = run_user (apply_user f e).0 es

-- What a profile's stream changes, as plain data.
pub record Patch : Type 0 where
  pub id : Uuid
  pub at : DateTime
  pub full_name : Option (Option String)
  pub avatar_url : Option (Option String)

abbrev pub patch_event : Patch → DomainEvent
patch_event p = user_profile_updated p.id p.at p.full_name p.avatar_url

abbrev pub latest_patch : List Patch → DateTime
latest_patch [] = 0
latest_patch (p ∷ ps) = max p.at (latest_patch ps)

abbrev patched : UserView → List Patch → UserView
patched v ps = record v {
  full_name = unwrap_or (last_some (map (λ p. p.full_name) ps)) v.full_name;
  avatar_url = unwrap_or (last_some (map (λ p. p.avatar_url) ps)) v.avatar_url;
  updated_at = max v.updated_at (latest_patch ps);
}

abbrev known : UserView → UserFolder
known v = record { inner = some v }

run_user-patches :
    (v : UserView) (ps : List Patch)
    → run_user (known v) (map patch_event ps) ≡ known (patched v ps)
unfolding run_user apply_user
run_user-patches v [] = ground arith
run_user-patches v (p ∷ ps) =
    run_user-patches (patch_view p.at p.full_name p.avatar_url v) ps
    ∙ ground (
      arith,
      unwrap_or-last_some p.full_name (map (λ (q : Patch). q.full_name) ps) v.full_name,
      unwrap_or-last_some p.avatar_url (map (λ (q : Patch). q.avatar_url) ps) v.avatar_url,
    )

module _ (F : Formats) (read_array : Items → Option DomainEvent) where
  apply_all-run_user :
      (f : UserFolder) (events : List SdkEvent)
      → apply_all (user_folder F read_array) f events ≡ run_user f (decoded F read_array events)
  unfolding apply_all decoded run_user apply_user_sdk
  apply_all-run_user f [] = refl
  apply_all-run_user f (event ∷ events) = elim (Option-cases (decode_or_warn F read_array event)) [
    | inl h ↦ rw h (apply_all-run_user f events)
    | inr (e, h) ↦ rw h (apply_all-run_user (apply_user f e).0 events)
  ]

  -- Events that decode to a registration and any number of patches behind it fold to the view that has the
  -- registration's id, email and time, for the name and for the avatar what the last patch that
  -- names it says, a clear included, and the latest time of all.
  fold_events-profile :
      (events : List SdkEvent) (id : Uuid) (email : String) (at : DateTime)
      (full_name avatar_url : Option String) (patches : List Patch)
      → decoded F read_array events
        ≡ user_registered id email at full_name avatar_url ∷ map patch_event patches
      → fold_events (user_folder F read_array) events
        ≡ some (record {
          id = id;
          email = email;
          full_name = unwrap_or (last_some (map (λ p. p.full_name) patches)) full_name;
          avatar_url = unwrap_or (last_some (map (λ p. p.avatar_url) patches)) avatar_url;
          created_at = at;
          updated_at = max at (latest_patch patches);
        })
  unfolding fold_events run_user apply_user finalize_user
  fold_events-profile events id email at full_name avatar_url patches h =
      rw (apply_all-run_user, h) (rw run_user-patches refl)
