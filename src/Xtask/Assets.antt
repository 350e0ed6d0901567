-- ===== src/Xtask/Assets.antt =====
-- tooling/xtask/src/discovery.rs: which assets stay in a release.
pub mod Reach
use rust_v.Prelude.{
  ℕ, zero, suc, String, Bool, true, false, not, ◌&&◌, ◌||◌, List, [], ◌∷◌, ◌++◌, map, any, filter,
  length, ◌==◌, if◌then◌else◌,
}
use rust_v.Prelude.Text.{str_eq}
use rust_v.Xtask.Encode.{bytes}

-- A file below `assets`: its path from there, and its bytes.
pub record Asset : Type 0 where
  pub name : String
  pub contents : List ℕ

unfoldable pub starts_with_bytes : List ℕ → List ℕ → Bool
starts_with_bytes [] haystack = true
starts_with_bytes (b ∷ needle) [] = false
starts_with_bytes (b ∷ needle) (h ∷ haystack) = b == h && starts_with_bytes needle haystack

unfoldable pub in_windows : List ℕ → List ℕ → Bool
unfolding starts_with_bytes
in_windows needle [] = starts_with_bytes needle []
in_windows needle (h ∷ haystack) =
    starts_with_bytes needle (h ∷ haystack) || in_windows needle haystack

abbrev is_nil {ℓ} : {A : Type ℓ} → List A → Bool
is_nil [] = true
is_nil (x ∷ xs) = false

unfoldable pub contains_bytes : List ℕ → List ℕ → Bool
unfolding in_windows
contains_bytes haystack needle = not (is_nil needle) && in_windows needle haystack

abbrev pub mentions : Asset → List ℕ → Bool
mentions asset source = contains_bytes source (bytes asset.name)

-- `reachable.contains(relative)`
abbrev pub reached : List Asset → Asset → Bool
reached reachable asset = any (λ (a : Asset). str_eq a.name asset.name) reachable

abbrev pub is_fresh : List Asset → List (List ℕ) → Asset → Bool
is_fresh reachable sources asset = not (reached reachable asset) && any (mentions asset) sources

abbrev pub contents_of : List Asset → List (List ℕ)
contents_of assets = map (λ (a : Asset). a.contents) assets

-- One round adds the assets that a source names; the loop ends with a round that adds none. On fuel:
-- each other round reaches an asset more.
module _ (candidates : List Asset) where
  abbrev pub fresh : List Asset → List (List ℕ) → List Asset
  fresh reachable sources = filter (is_fresh reachable sources) candidates

  abbrev pub extended :
      (List Asset → List (List ℕ) → List Asset)
      → List Asset
      → List (List ℕ)
      → List Asset
      → List Asset
  extended next reachable sources [] = reachable
  extended next reachable sources (a ∷ added) =
      next ((a ∷ added) ++ reachable) (sources ++ contents_of (a ∷ added))

  unfoldable pub reach_loop : ℕ → List Asset → List (List ℕ) → List Asset
  reach_loop zero reachable sources = reachable
  reach_loop (suc fuel) reachable sources =
      extended (reach_loop fuel) reachable sources (fresh reachable sources)

  -- `prune_unreferenced_assets`, from the bytes of the pages: what is not removed.
  unfoldable pub prune_unreferenced_assets : List (List ℕ) → List Asset
  unfolding reach_loop
  prune_unreferenced_assets pages =
      filter (reached (reach_loop (suc (length candidates)) [] pages)) candidates
