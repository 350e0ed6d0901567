-- ===== src/Gates/Scans/Current.antt =====
-- `styles_are_current`: when the committed stylesheets are those that the sources compile to.
use rust_v.Prelude.{
  ℕ, String, ◌≡◌, refl, ap, sym, subst, ◌∙◌, ◌↔◌, Bool, true, false, Option, none, some, List, [],
  ◌∷◌, ok, All, arith, if◌then◌else◌,
}
use rust_v.Gates.Isa.{is_nil}
use rust_v.Gates.Machine.{
  Machine, then_run-ok, then_run-of, or_io, or_io-ok, or_io-of, pure-ok, guard-ok, guard-of,
}
use rust_v.Gates.Styles.{Stylesheet, join, committed, workspace_root, compile}
use rust_v.Gates.Scans.{or_default, same_bytes, stale_sheets, styles_are_current}

same_bytes_iff : (as' bs : List ℕ) → (same_bytes as' bs ≡ true) ↔ (as' ≡ bs)
unfolding same_bytes
same_bytes_iff [] [] = (λ h. refl, λ h. refl)
same_bytes_iff [] (b ∷ bs) = (λ h. absurd (ground arith), λ h. absurd (ground arith))
same_bytes_iff (a ∷ as') [] = (λ h. absurd (ground arith), λ h. absurd (ground arith))
same_bytes_iff (a ∷ as') (b ∷ bs) =
    let next = same_bytes_iff as' bs in
    (
      λ h. let e : a ≡ b = ground arith in let e' = next.0 (ground arith) in λ i. e i ∷ e' i,
      λ h. let e' = next.1 (ground arith) in ground arith,
    )

unless-nil :
    (b : Bool) (x : String) {later : List String}
    → (if b then later else x ∷ later) ≡ []
    → (b ≡ true) × (later ≡ [])
unless-nil true x h = (refl, h)
unless-nil false x h = absurd (ground arith)

module _ {W : Type 0} (m : Machine W) where
  -- The sheet can be read, and holds the bytes of the committed one, none where that is missing.
  pub record IsCurrent (root : String) (w : W) (sheet : Stylesheet) : Type 0 where
    pub fresh : List ℕ
    pub readable : m.read w sheet.path ≡ some fresh
    pub same : or_default (m.read w (committed root sheet.app)) ≡ fresh

  -- The loop only reads.
  stale_sheets-IsCurrent :
      (root : String) (sheets : List Stylesheet) (w w' : W)
      → (stale_sheets m root sheets w ≡ (w', ok [])) ↔ ((w ≡ w') × All (IsCurrent root w) sheets)
  unfolding stale_sheets
  stale_sheets-IsCurrent root [] w w' =
      (λ h. ((pure-ok h).0, tt), λ h. ap (λ (v : W). (v, ok [])) h.0)
  stale_sheets-IsCurrent root (sheet ∷ rest) w w' = (
    λ h.
        let (w1, fresh, h1, k1) = then_run-ok (or_io (w, m.read w sheet.path)) h in
        let (w2, old, h2, k2) =
          then_run-ok (w1, ok (or_default (m.read w1 (committed root sheet.app)))) k1 in
        let (w3, later, h3, k3) = then_run-ok (stale_sheets m root rest w2) k2 in
        let (e3, none_stale) = pure-ok k3 in
        let (b, no_later) = unless-nil (same_bytes old fresh) _ none_stale in
        let (same, rest_current) =
          (stale_sheets-IsCurrent root rest w2 w3).0
            (h3 ∙ ap (λ (l : List String). (w3, ok l)) no_later) in
        let (e2, read_old) = pure-ok h2 in
        let read_fresh = or_io-ok (w, m.read w sheet.path) h1 in
        let e1 = ap (λ (p : W × Option (List ℕ)). p.0) read_fresh in
        let e = e1 ∙ e2 in
        (
          e ∙ same ∙ e3,
          (
            record {
              fresh = fresh;
              readable = ap (λ (p : W × Option (List ℕ)). p.1) read_fresh;
              same =
                  ap (λ (v : W). or_default (m.read v (committed root sheet.app))) e1
                  ∙ read_old
                  ∙ (same_bytes_iff old fresh).0 b;
            },
            subst (λ v. All (IsCurrent root v) rest) (sym e) rest_current,
          ),
        ),
    λ (e, (current, rest_current)).
        then_run-of _ (or_io-of (ap (λ (r : Option (List ℕ)). (w, r)) current.readable))
        ∙ then_run-of _ refl
        ∙ then_run-of _ ((stale_sheets-IsCurrent root rest w w').1 (e, rest_current))
        ∙ rw ((same_bytes_iff _ _).1 current.same) refl,
  )

  -- Every stylesheet compiles into the scratch directory, to the bytes of the committed one.
  pub record AreCurrent (os arch : String) (found : Option String) (w w' : W) : Type 0 where
    pub root : String
    pub located : found ≡ some root
    pub sheets : List Stylesheet
    pub compiled :
        compile m os arch found (some (join root "target/style-check")) w ≡ (w', ok sheets)
    pub current : All (IsCurrent root w') sheets

  pub workspace_root-ok :
      (found : Option String) {w w' : W} {root : String}
      → workspace_root found w ≡ (w', ok root)
      → (found ≡ some root) × (w ≡ w')
  workspace_root-ok none h = absurd (ground arith)
  workspace_root-ok (some r) h = let (e, e') = pure-ok h in (ap (λ (t : String). some t) e', e)

  is_nil-of : (l : List String) → is_nil l ≡ true → l ≡ []
  is_nil-of [] h = refl
  is_nil-of (x ∷ l) h = absurd (ground arith)

  -- `styles_are_current` passes exactly if each app's sheet compiles and the committed file holds
  -- the same bytes, a missing file being an empty one.
  pub styles_are_current-AreCurrent :
      (os arch : String) (found : Option String) (w w' : W)
      → (styles_are_current m os arch found w ≡ (w', ok tt)) ↔ AreCurrent os arch found w w'
  unfolding styles_are_current
  styles_are_current-AreCurrent os arch found w w' = (
    λ h.
        let (w1, root, h1, k1) = then_run-ok (workspace_root found w) h in
        let (located, e1) = workspace_root-ok found h1 in
        let (w2, sheets, h2, k2) =
          then_run-ok (compile m os arch found (some (join root "target/style-check")) w1) k1 in
        let (w3, stale_ones, h3, k3) = then_run-ok (stale_sheets m root sheets w2) k2 in
        let (nil, e3) = guard-ok (is_nil stale_ones) _ k3 in
        let (e2, current) =
          (stale_sheets-IsCurrent root sheets w2 w3).0
            (h3 ∙ ap (λ (l : List String). (w3, ok l)) (is_nil-of stale_ones nil)) in
        record {
          root = root;
          located = located;
          sheets = sheets;
          compiled =
              ap (λ (v : W). compile m os arch found (some (join root "target/style-check")) v) e1
              ∙ h2
              ∙ ap (λ (v : W). (v, ok sheets)) (e2 ∙ e3);
          current = subst (λ v. All (IsCurrent root v) sheets) (e2 ∙ e3) current;
        },
    λ c.
        then_run-of _ (ap (λ (f : Option String). workspace_root f w) c.located)
        ∙ then_run-of _ c.compiled
        ∙ then_run-of _ ((stale_sheets-IsCurrent c.root c.sheets w' w').1 (refl, c.current))
        ∙ guard-of _ w' refl,
  )
