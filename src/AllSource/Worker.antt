-- ===== src/AllSource/Worker.antt =====
-- crates/rv2-allsource/src/workers.rs: the read model of all posts, which one event updates.
pub mod Step
pub mod Own
pub mod Agreement
pub mod Divergence
pub mod Hydration
use rust_v.Prelude.{
  ℕ, String, Bool, true, false, Option, none, some, List, [], ◌∷◌, map, if◌then◌else◌,
}
use rust_v.Prelude.Opt.{◌>>=◌}
use rust_v.Prelude.Dict
use rust_v.Prelude.Dict.{Dict}
use rust_v.Prelude.Text.{split_once}
use rust_v.Events.Payload.{Items}
use rust_v.Events.{Uuid, Formats, DomainEvent, post, stream}
use rust_v.ApiTypes.{PostView}
use rust_v.AllSource.{SdkEvent, envelope_from_sdk}
use rust_v.AllSource.Folders.{PostFolder, new_post_folder, finalize_post, apply_post_sdk}

abbrev pub PostsReadModel : Type 0
PostsReadModel = Dict PostView

unfoldable pub seed : PostFolder → PostView → PostFolder
seed f view = record f { inner = some view }

-- `match folder.finalize()` of a seeded folder.
store_seeded : PostsReadModel → Uuid → Option PostView → PostsReadModel
store_seeded state id (some updated) = Dict.insert state id updated
store_seeded state id none = Dict.remove state id

-- `if let Some(created) = folder.finalize()` of a fresh folder.
store_new : PostsReadModel → Option PostView → PostsReadModel
store_new state (some created) = Dict.insert state created.id created
store_new state none = state

if_handled : PostsReadModel → (PostFolder → PostsReadModel) → PostFolder × Bool → PostsReadModel
if_handled state store (folder, handled) = if handled then store folder else state

module _ (F : Formats) (read_array : Items → Option DomainEvent) where
  existing : PostsReadModel → SdkEvent → Option PostView
  unfolding envelope_from_sdk split_once
  existing state event = do
    (_, text) ← split_once b':' (envelope_from_sdk event).entity_id
    id ← F.read_uuid text
    Dict.get state id

  apply_to : PostsReadModel → SdkEvent → Option PostView → PostsReadModel
  unfolding seed if_handled store_seeded store_new
  apply_to state event (some view) =
      if_handled state (λ f. store_seeded state view.id (finalize_post f))
        (apply_post_sdk F read_array (seed new_post_folder view) event)
  apply_to state event none =
      if_handled state (λ f. store_new state (finalize_post f))
        (apply_post_sdk F read_array new_post_folder event)

  -- The source's result is always `Ok(())`.
  unfoldable pub apply_post_event : PostsReadModel → SdkEvent → PostsReadModel
  unfolding existing apply_to
  apply_post_event state event = apply_to state event (existing state event)

  -- What the SDK's worker does with its reducer.
  unfoldable pub run_worker : PostsReadModel → List SdkEvent → PostsReadModel
  run_worker state [] = state
  run_worker state (event ∷ events) = run_worker (apply_post_event state event) events

-- `state.entry(view.id).or_insert(view)` for each view of the seed.
or_insert : PostsReadModel → PostView → Option PostView → PostsReadModel
or_insert state view none = Dict.insert state view.id view
or_insert state view (some _) = state

unfoldable pub hydrate : PostsReadModel → List (String × PostView) → PostsReadModel
unfolding or_insert
hydrate state [] = state
hydrate state ((_, view) ∷ rest) = hydrate (or_insert state view (Dict.get state view.id)) rest

-- The pairs that are pushed back, each under its stream id. A view always has a JSON form.
unfoldable pub flush_entities : Formats → PostsReadModel → List (String × PostView)
unfolding stream
flush_entities F state = map (λ kv. (stream F post kv.1.id, kv.1)) (Dict.keys_values state)
