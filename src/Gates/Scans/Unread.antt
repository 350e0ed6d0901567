-- ===== src/Gates/Scans/Unread.antt =====
-- The exit status of a scanning command is not read.
use rust_v.Prelude.{String, ◌≡◌, refl, Bool, some, List, [], ◌∷◌, ok, arith}
use rust_v.Prelude.Text.Lines.{lines}
use rust_v.Gates.Machine.{Output, Machine}
use rust_v.Gates.Scans.{
  hue_scan, predecessor_scan, tree_of, boundary, no_hardcoded_hues, no_predecessor, wasm_apps,
}
use rust_v.Gates.Scans.Lines.{no_hardcoded_hues-NoHue, no_predecessor-NoPredecessor}
use rust_v.Gates.Scans.Boundary.{Apart, boundary-Apart}

abbrev pub silent : Bool → Output
silent success = record { success = success; stdout = "" }

module _ {W : Type 0} (m : Machine W) (exited : Bool) where
  Apart-silent :
      (apps : List String) (w : W)
      → ((app : String) → m.output (tree_of app) w ≡ (w, some (silent exited)))
      → Apart m apps w w
  Apart-silent [] w h = refl
  Apart-silent (app ∷ rest) w h =
      (w, silent exited, h app, unfold lines in omega arith, Apart-silent rest w h)

  -- Where a scanning command prints nothing, its gate passes whatever the command's exit status:
  -- the scan for hues, the scan for the predecessor, and the scan of the apps' dependencies.
  pub scans_unread :
      (w : W)
      → m.output hue_scan w ≡ (w, some (silent exited))
      → m.output predecessor_scan w ≡ (w, some (silent exited))
      → ((app : String) → m.output (tree_of app) w ≡ (w, some (silent exited)))
      → (no_hardcoded_hues m w ≡ (w, ok tt))
        × (no_predecessor m w ≡ (w, ok tt))
        × (boundary m wasm_apps w ≡ (w, ok tt))
  unfolding lines
  scans_unread w hues mentions trees = (
    (no_hardcoded_hues-NoHue m w w).1 (record { output = silent exited; ran = hues; marked = tt }),
    (no_predecessor-NoPredecessor m w w).1
        (record { output = silent exited; ran = mentions; admitted = tt }),
    (boundary-Apart m wasm_apps w w).1 (Apart-silent wasm_apps w trees),
  )
