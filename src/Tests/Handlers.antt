-- ===== src/Tests/Handlers.antt =====
-- The writer and the handlers on a store in memory.
use rust_v.Prelude.{String, ◌≡◌, refl, none, some, List, [], ◌∷◌, ◌++◌, ok, err, arith}
use rust_v.Prelude.Text.{trim}
use rust_v.Events.{
  DomainEvent, post_created, post_deleted, post, stream, stream_id, prefix, stream_kind,
  aggregate_id,
}
use rust_v.Events.Codec.{from_value, to_value}
use rust_v.Events.Wire.{event_type, decode}
use rust_v.ApiTypes.{PostView, UserView, CreatePostRequest, UpdatePostRequest, UpdateProfileRequest}
use rust_v.Domain.{non_empty_bounded}
use rust_v.Domain.Post as PostRules
use rust_v.Domain.Post.Commands.{trim_option}
use rust_v.AllSource.{SdkEvent, decode_or_warn, fold_events, apply_all}
use rust_v.AllSource.Folders.{edit_view, post_folder, apply_post_sdk, apply_post, finalize_post}
use rust_v.AllSource.Writer.{append, ingest_input}
use rust_v.AllSource.Writer.Append.{append-query, append-ingest}
use rust_v.Api.{not_found}
use rust_v.Api.Posts.{load, create, update, delete}
use rust_v.Api.Posts.Guards.{UpdateRun, DeleteRun, update-UpdateRun, delete-DeleteRun}
use rust_v.Api.Posts.Effects.{create_effect, update_effect, delete_effect}
use rust_v.Api.Users.Owner.{ProfileRun, update-ProfileRun}
use rust_v.Tests.{
  formats, no_array, memory, memory_laws, written_event, normalized-event_type, created, edited,
}

abbrev one : List SdkEvent
one = written_event created ∷ []

abbrev view : PostView
view = record {
  id = 3;
  author_id = 5;
  title = "Title";
  content = "Body";
  created_at = 10;
  updated_at = 10;
}

abbrev rename : UpdatePostRequest
rename = record { title = some " New title"; content = none }

abbrev draft : CreatePostRequest
draft = record { title = " Title "; content = "Body" }

abbrev post_entity : String
post_entity = "post:111"

computing : Unit {0}
unfolding append stream_id stream stream_kind aggregate_id prefix event_type to_value from_value
    decode decode_or_warn fold_events apply_all apply_post_sdk apply_post finalize_post trim
    PostRules.edit
computing = tt

one-query : memory.query_events one (stream formats post 3) "default" 10000 ≡ some one
unfolding computing
one-query = refl

one-live : fold_events (post_folder formats no_array) one ≡ some view
unfolding computing
one-live = refl

accepts :
    (e : DomainEvent) (s : List SdkEvent)
    → (append formats no_array memory e s).0 ≡ ok (stream_id formats e)
unfolding ingest_input
accepts e s =
    rw (append-ingest formats no_array memory "default" memory_laws e s (normalized-event_type e))
      refl

rename-edit : PostRules.edit 3 12 rename ≡ ok edited
unfolding computing non_empty_bounded
rename-edit = refl

update-UpdateRun_example : UpdateRun formats no_array memory "default" 5 3 12 one rename
update-UpdateRun_example = update-UpdateRun formats no_array memory "default" 5 3 12 one rename

delete-DeleteRun_example : DeleteRun formats no_array memory "default" 6 3 14 one
delete-DeleteRun_example = delete-DeleteRun formats no_array memory "default" 6 3 14 one

append-query_example :
    (event : SdkEvent) × (event.entity_id ≡ stream_id formats edited)
    × (decode_or_warn formats no_array event ≡ some edited)
    × (memory.query_events
          (append formats no_array memory edited one).1
          (stream_id formats edited)
          "default"
          10000
        ≡ some (one ++ event ∷ []))
unfolding stream_id stream_kind aggregate_id
append-query_example =
    append-query formats no_array memory "default" memory_laws edited one (stream_id formats edited)
      10000 one (accepts edited one) one-query (omega arith)

create_effect_example : create formats no_array memory "default" 3 5 10 draft [] ≡ (
  ok view,
  (append formats no_array memory
      (post_created 3 5 (trim draft.title) (trim draft.content) 10)
      []).1,
)
unfolding computing
create_effect_example =
    create_effect formats no_array memory "default" memory_laws 3 10 [] (stream_id formats created)
      5 draft (omega arith, omega arith) (omega arith, omega arith) (accepts created []) refl

update_effect_example : update formats no_array memory "default" 5 3 12 rename one ≡ (
  ok (edit_view 12 (trim_option rename.title) (trim_option rename.content) view),
  (append formats no_array memory edited one).1,
)
update_effect_example =
    update_effect formats no_array memory "default" memory_laws 3 12 one (stream_id formats edited)
      one view one-query (omega arith) one-live rename edited rename-edit (accepts edited one)

delete_effect_example :
    (delete formats no_array memory "default" 5 3 14 one
      ≡ (ok tt, (append formats no_array memory (post_deleted 3 14) one).1))
    × (load formats no_array memory "default" 3
          (append formats no_array memory (post_deleted 3 14) one).1
        ≡ (err (not_found "post"), (append formats no_array memory (post_deleted 3 14) one).1))
delete_effect_example =
    delete_effect formats no_array memory "default" memory_laws 3 14 one
      (stream_id formats (post_deleted 3 14)) one view one-query (omega arith) one-live
      (accepts (post_deleted 3 14) one)

abbrev profile : UserView
profile = record {
  id = 5;
  email = "ann@example.org";
  full_name = some "Ann";
  avatar_url = none;
  created_at = 9;
  updated_at = 9;
}

abbrev clear_name : UpdateProfileRequest
clear_name = record { full_name = some none; avatar_url = none }

update-ProfileRun_example :
    ProfileRun formats no_array memory (λ s entity. ok (some profile)) 5 5 13 [] clear_name
update-ProfileRun_example =
    update-ProfileRun formats no_array memory (λ s entity. ok (some profile)) 5 5 13 [] clear_name
