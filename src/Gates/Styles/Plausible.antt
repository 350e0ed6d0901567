-- ===== src/Gates/Styles/Plausible.antt =====
-- What `compile` returns.
use rust_v.Prelude.{
  ◌≤◌, String, ◌≡◌, ap, sym, subst, ◌∙◌, not, Option, some, List, [], ◌∷◌, ok, ltb, arith,
}
use rust_v.Gates.Machine.{Machine, then_run-ok, or_io, pure-ok, guard-ok}
use rust_v.Gates.Styles.{
  App, apps, Stylesheet, join, output_of, tailwind, min_plausible_css_bytes, workspace_root,
  compile_app, compile_all, compile, created, ensure_tailwind,
}

module _ {W : Type 0} (m : Machine W) (os arch : String) where
  -- The sheet of the app, where it was asked for, and with enough bytes to be one.
  pub record IsPlausible (root : String) (out_dir : Option String) (app : App) (sheet : Stylesheet)
      : Type 0 where
    pub named : sheet.app ≡ app.name
    pub placed : sheet.path ≡ output_of root out_dir app
    pub enough : min_plausible_css_bytes ≤ sheet.bytes

  -- The sheets belong to the apps one by one.
  abbrev pub ArePlausible : String → Option String → List App → List Stylesheet → Type 0
  ArePlausible root out_dir [] [] = Unit
  ArePlausible root out_dir [] (sheet ∷ sheets) = ⊥
  ArePlausible root out_dir (app ∷ rest) [] = ⊥
  ArePlausible root out_dir (app ∷ rest) (sheet ∷ sheets) =
      IsPlausible root out_dir app sheet × ArePlausible root out_dir rest sheets

  compile_app-IsPlausible :
      (root binary : String) (out_dir : Option String) (app : App) (w w' : W) (sheet : Stylesheet)
      → compile_app m os arch root binary out_dir app w ≡ (w', ok sheet)
      → IsPlausible root out_dir app sheet
  unfolding compile_app
  compile_app-IsPlausible root binary out_dir app w w' sheet h =
      let input = join (join root app.dir) "assets/input.css" in
      let output = output_of root out_dir app in
      let (w1, _, h1, k1) = then_run-ok (w, ok (m.exists w input)) h in
      let (w2, _, h2, k2) = then_run-ok _ k1 in
      let (w3, _, h3, k3) =
        then_run-ok (or_io (m.status (tailwind root binary input output) w2)) k2 in
      let (w4, _, h4, k4) = then_run-ok _ k3 in
      let (w5, bytes, h5, k5) = then_run-ok (or_io (w4, m.size w4 output)) k4 in
      let (w6, _, h6, k6) = then_run-ok _ k5 in
      let (many, _) = guard-ok (not (ltb bytes min_plausible_css_bytes)) _ h6 in
      let e = (pure-ok k6).1 in
      record {
        named = sym (ap (λ (s : Stylesheet). s.app) e);
        placed = sym (ap (λ (s : Stylesheet). s.path) e);
        enough = ground (arith, ap (λ (s : Stylesheet). s.bytes) e);
      }

  compile_all-ArePlausible :
      (root binary : String) (out_dir : Option String) (rest : List App) (w w' : W)
      (sheets : List Stylesheet)
      → compile_all m os arch root binary out_dir rest w ≡ (w', ok sheets)
      → ArePlausible root out_dir rest sheets
  unfolding compile_all
  compile_all-ArePlausible root binary out_dir [] w w' [] h = tt
  compile_all-ArePlausible root binary out_dir [] w w' (sheet ∷ sheets) h = absurd (ground arith)
  compile_all-ArePlausible root binary out_dir (app ∷ rest) w w' sheets h =
      let (w1, sheet, h1, k1) = then_run-ok (compile_app m os arch root binary out_dir app w) h in
      let (w2, later, h2, k2) =
        then_run-ok (compile_all m os arch root binary out_dir rest w1) k1 in
      subst (λ l. ArePlausible root out_dir (app ∷ rest) l) (pure-ok k2).1
        (
          compile_app-IsPlausible root binary out_dir app w w1 sheet h1,
          compile_all-ArePlausible root binary out_dir rest w1 w2 later h2,
        )

  -- When `compile` succeeds it returns one sheet for each app, in the order of the table, that lies
  -- where it was asked for and has no fewer than the 2048 bytes of a plausible stylesheet.
  pub compile-ArePlausible :
      (root : String) (out_dir : Option String) (w w' : W) (sheets : List Stylesheet)
      → compile m os arch (some root) out_dir w ≡ (w', ok sheets)
      → ArePlausible root out_dir apps sheets
  unfolding compile
  compile-ArePlausible root out_dir w w' sheets h =
      let (w1, r, h1, k1) = then_run-ok (workspace_root (some root) w) h in
      let (w2, binary, h2, k2) = then_run-ok (ensure_tailwind m os arch r w1) k1 in
      let (w3, _, h3, k3) = then_run-ok (created m os arch out_dir w2) k2 in
      let e = (pure-ok h1).1 in
      compile_all-ArePlausible root binary out_dir apps w3 w' sheets
        (ap (λ (t : String). compile_all m os arch t binary out_dir apps w3) e ∙ k3)
