-- ===== src/Tests/Scan.antt =====
-- The fallback of the list of posts on a scan that mixes two streams.
use mathlib.Core.List.{Memᴰ}
use rust_v.Prelude.{String, ◌≡◌, ◌↔◌, List, [], ◌∷◌, filter}
use rust_v.Prelude.Sorted.{Ascending}
use rust_v.Prelude.Text.Order.{text_lt}
use rust_v.AllSource.{SdkEvent, fold_events}
use rust_v.AllSource.Folders.{post_folder}
use rust_v.Api.Listing.{filter_map, fold_all_posts}
use rust_v.Api.Listing.Streams.{is_of, entities}
use rust_v.Api.Listing.Fallback.{fold_all_posts_streams}
use rust_v.Tests.{formats, no_array, written_event, created, edited, other}

abbrev mixed : List SdkEvent
mixed = written_event created ∷ written_event other ∷ written_event edited ∷ []

fold_all_posts_streams_example :
    (ids : List String) × Ascending text_lt ids
    × ((id : String) → Memᴰ id ids ↔ Memᴰ id (entities mixed))
    × (fold_all_posts formats no_array mixed
        ≡ filter_map
            (λ (id : String). fold_events (post_folder formats no_array) (filter (is_of id) mixed))
            ids)
fold_all_posts_streams_example = fold_all_posts_streams formats no_array mixed
