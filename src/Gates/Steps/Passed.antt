-- ===== src/Gates/Steps/Passed.antt =====
-- What has been shown when `ci` passes.
use rust_v.Prelude.{
  ℕ, String, ◌≡◌, refl, ap, ◌∙◌, ◌↔◌, Option, some, [], ◌∷◌, ok, err, Result, All, arith,
}
use rust_v.Gates.Isa.Sources.{Entries, IsaFailure, app_sources, check_sources}
use rust_v.Gates.Isa.Clean.{IsClean, check_sources-IsClean}
use rust_v.Gates.Machine.{Machine, then_run-ok, then_run-of, or_io, or_io-ok, or_io-of, pure-ok}
use rust_v.Gates.Styles.{workspace_root}
use rust_v.Gates.Scans.{run, styles_are_current, no_predecessor, no_hardcoded_hues}
use rust_v.Gates.Scans.Lines.{
  NoHue, NoPredecessor, no_hardcoded_hues-NoHue, no_predecessor-NoPredecessor,
}
use rust_v.Gates.Scans.Boundary.{Succeeds, run-Succeeds, IsBounded, wasm_boundary-IsBounded}
use rust_v.Gates.Scans.Current.{AreCurrent, workspace_root-ok, styles_are_current-AreCurrent}
use rust_v.Gates.Steps.{fmt_args, clippy_args, verdict, apps_speak_the_kit, ci}

module _ {W : Type 0} (m : Machine W) where
  -- The files of the apps could be listed, and each is clean.
  pub record KitSpoken (found : Option String) (w w' : W) : Type 0 where
    pub root : String
    pub located : found ≡ some root
    pub apps : Entries
    pub listed : m.apps w ≡ some apps
    pub clean : All IsClean (app_sources apps)
    pub same : w ≡ w'

  verdict-ok :
      {A : Type 0} (r : Result IsaFailure A) {w w' : W}
      → verdict m r w ≡ (w', ok tt)
      → (n : A) × (r ≡ ok n) × (w ≡ w')
  verdict-ok (ok n) h = (n, refl, (pure-ok h).0)
  verdict-ok (err e) h = absurd (ground arith)

  apps_speak_the_kit-KitSpoken :
      (found : Option String) (w w' : W)
      → (apps_speak_the_kit m found w ≡ (w', ok tt)) ↔ KitSpoken found w w'
  unfolding apps_speak_the_kit
  apps_speak_the_kit-KitSpoken found w w' = (
    λ h.
        let (w1, root, h1, k1) = then_run-ok (workspace_root found w) h in
        let (located, e1) = workspace_root-ok m found h1 in
        let (w2, apps, h2, k2) = then_run-ok (or_io (w1, m.apps w1)) k1 in
        let (n, passed, e3) = verdict-ok (check_sources apps) k2 in
        let listed = or_io-ok (w1, m.apps w1) h2 in
        record {
          root = root;
          located = located;
          apps = apps;
          listed = ap (λ (v : W). m.apps v) e1 ∙ ap (λ (p : W × Option Entries). p.1) listed;
          clean = (check_sources-IsClean apps).0 (n, passed);
          same = e1 ∙ ap (λ (p : W × Option Entries). p.0) listed ∙ e3;
        },
    λ k.
        let (n, passed) = (check_sources-IsClean k.apps).1 k.clean in
        then_run-of _ (ap (λ (f : Option String). workspace_root f w) k.located)
        ∙ then_run-of _ (or_io-of (ap (λ (a : Option Entries). (w, a)) k.listed))
        ∙ ap (λ (r : Result IsaFailure ℕ). verdict m r w) passed
        ∙ ap (λ (v : W). (v, ok tt)) k.same,
  )

  -- Each gate passed, in the world that the one before it left.
  pub record IsPassed (os arch : String) (found : Option String) (w w' : W) : Type 0 where
    pub w1 : W
    pub w2 : W
    pub w3 : W
    pub w4 : W
    pub w5 : W
    pub w6 : W
    pub w7 : W
    pub w8 : W
    pub formatted : Succeeds m "cargo" ("fmt" ∷ "--all" ∷ "--" ∷ "--check" ∷ []) w w1
    pub linted :
        Succeeds m "cargo"
          ("clippy" ∷ "--workspace" ∷ "--all-targets" ∷ "--all-features" ∷ "--" ∷ "-D" ∷ "warnings"
            ∷ [])
          w1
          w2
    pub built : Succeeds m "cargo" ("build" ∷ "--workspace" ∷ []) w2 w3
    pub tested : Succeeds m "cargo" ("test" ∷ "--workspace" ∷ []) w3 w4
    pub current : AreCurrent m os arch found w4 w5
    pub unmentioned : NoPredecessor m w5 w6
    pub no_hue : NoHue m w6 w7
    pub spoken : KitSpoken found w7 w8
    pub bounded : IsBounded m w8 w'

  -- `ci` passes exactly if every gate does, in this order: the formatter, the linter, the build and
  -- the tests succeed; the committed stylesheets are current; each line that the scan for the
  -- predecessor prints is marked or licensed; each line that the scan for hues prints is marked; no file of an app bypasses the kit;
  -- and the apps reach no crate of the server.
  pub ci-IsPassed :
      (os arch : String) (found : Option String) (w w' : W)
      → (ci m os arch found w ≡ (w', ok tt)) ↔ IsPassed os arch found w w'
  unfolding ci
  ci-IsPassed os arch found w w' = (
    λ h.
        let (w1, _, h1, k1) = then_run-ok (run m "cargo" fmt_args w) h in
        let (w2, _, h2, k2) = then_run-ok (run m "cargo" clippy_args w1) k1 in
        let (w3, _, h3, k3) = then_run-ok (run m "cargo" _ w2) k2 in
        let (w4, _, h4, k4) = then_run-ok (run m "cargo" _ w3) k3 in
        let (w5, _, h5, k5) = then_run-ok (styles_are_current m os arch found w4) k4 in
        let (w6, _, h6, k6) = then_run-ok (no_predecessor m w5) k5 in
        let (w7, _, h7, k7) = then_run-ok (no_hardcoded_hues m w6) k6 in
        let (w8, _, h8, k8) = then_run-ok (apps_speak_the_kit m found w7) k7 in
        record {
          w1 = w1;
          w2 = w2;
          w3 = w3;
          w4 = w4;
          w5 = w5;
          w6 = w6;
          w7 = w7;
          w8 = w8;
          formatted = (run-Succeeds m "cargo" fmt_args w w1).0 h1;
          linted = (run-Succeeds m "cargo" clippy_args w1 w2).0 h2;
          built = (run-Succeeds m "cargo" _ w2 w3).0 h3;
          tested = (run-Succeeds m "cargo" _ w3 w4).0 h4;
          current = (styles_are_current-AreCurrent m os arch found w4 w5).0 h5;
          unmentioned = (no_predecessor-NoPredecessor m w5 w6).0 h6;
          no_hue = (no_hardcoded_hues-NoHue m w6 w7).0 h7;
          spoken = (apps_speak_the_kit-KitSpoken found w7 w8).0 h8;
          bounded = (wasm_boundary-IsBounded m w8 w').0 k8;
        },
    λ p.
        then_run-of _ ((run-Succeeds m "cargo" fmt_args w p.w1).1 p.formatted)
        ∙ then_run-of _ ((run-Succeeds m "cargo" clippy_args p.w1 p.w2).1 p.linted)
        ∙ then_run-of _ ((run-Succeeds m "cargo" _ p.w2 p.w3).1 p.built)
        ∙ then_run-of _ ((run-Succeeds m "cargo" _ p.w3 p.w4).1 p.tested)
        ∙ then_run-of _ ((styles_are_current-AreCurrent m os arch found p.w4 p.w5).1 p.current)
        ∙ then_run-of _ ((no_predecessor-NoPredecessor m p.w5 p.w6).1 p.unmentioned)
        ∙ then_run-of _ ((no_hardcoded_hues-NoHue m p.w6 p.w7).1 p.no_hue)
        ∙ then_run-of _ ((apps_speak_the_kit-KitSpoken found p.w7 p.w8).1 p.spoken)
        ∙ (wasm_boundary-IsBounded m p.w8 w').1 p.bounded,
  )
