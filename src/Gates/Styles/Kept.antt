-- ===== src/Gates/Styles/Kept.antt =====
-- What `styles_are_current` leaves as it was.
use Prim.Native.Char.{Char, code}
use Prim.Native.String
use text.Mathlib.TextLemmas.{append_assoc, cons-append, head-eq_of_cons-eq, append_cancel_left}
use rust_v.Prelude.{
  String, ◌≡◌, ◌≢◌, refl, ap, sym, ◌∙◌, inl, inr, Bool, true, false, Option, none, some, List, [],
  ◌∷◌, ok, err, Result, Bool-cases, arith,
}
use rust_v.Prelude.Text.{str_eq}
use rust_v.Gates.Machine.{
  Failure, Machine, Command, then_run, ◌>>=◌, guard, then_run-of, lift, or_io, unit_or_io,
}
use rust_v.Gates.Styles.{
  App, apps, Stylesheet, join, output_of, tailwind, download, release_url, platform_of, compile_app,
  compile_all, compile, committed, dir_of, fetch, ensure_tailwind,
}
use rust_v.Gates.Scans.{stale_sheets, styles_are_current}

module _ {W : Type 0} (m : Machine W) (p : String) where
  -- Whatever it returns, the command leaves the file as it was.
  abbrev Keeps : {A : Type 0} → Command W A → Type 0
  Keeps c = (w : W) → m.read (c w).0 p ≡ m.read w p

  then_run-Keeps :
      {A B : Type 0} (f : A → Command W B) (r : W × Result Failure A)
      → ((a : A) → Keeps (f a))
      → m.read (then_run f r).0 p ≡ m.read r.0 p
  unfolding then_run
  then_run-Keeps f (w, ok a) h = h a w
  then_run-Keeps f (w, err e) h = refl

  bind-Keeps :
      {A B : Type 0} (c : Command W A) (f : A → Command W B)
      → Keeps c
      → ((a : A) → Keeps (f a))
      → Keeps (c >>= f)
  bind-Keeps c f h k w = then_run-Keeps f (c w) k ∙ h w

  or_io-fst : {A : Type 0} (r : W × Option A) → m.read (or_io r).0 p ≡ m.read r.0 p
  or_io-fst (w, none) = refl
  or_io-fst (w, some a) = refl

  unit_or_io-fst : (r : W × Bool) → m.read (unit_or_io r).0 p ≡ m.read r.0 p
  unit_or_io-fst (w, true) = refl
  unit_or_io-fst (w, false) = refl

  guard-Keeps : (b : Bool) (e : Failure) → Keeps (guard b e)
  unfolding guard
  guard-Keeps true e w = refl
  guard-Keeps false e w = refl

  -- The commands that are run change no file but the one that their `-o` names.
  pub record IsConfined : Type 0 where
    pub tailwind_keeps :
        (root binary input output : String) (w : W)
        → output ≢ p
        → m.read (m.status (tailwind root binary input output) w).0 p ≡ m.read w p
    pub download_keeps :
        (binary url : String) (w : W)
        → binary ≢ p
        → m.read (m.status (download binary url) w).0 p ≡ m.read w p
    pub create_keeps : (dir : String) (w : W) → m.read (m.create_dir_all dir w).0 p ≡ m.read w p
    pub mode_keeps : (path : String) (w : W) → m.read (m.set_mode path w).0 p ≡ m.read w p

  below_target :
      (root name : String)
      → join (join root "target") (String.◌++◌ "style-check/" name)
        ≡ join (join root "target/style-check") name
  below_target root name =
      append_assoc root "/target" (String.◌++◌ "/" (String.◌++◌ "style-check/" name))
      ∙ ap (λ (t : String). String.◌++◌ root t)
          (sym (append_assoc "/target" "/" (String.◌++◌ "style-check/" name))
            ∙ sym (append_assoc "/target/" "style-check/" name)
            ∙ append_assoc "/target/style-check" "/" name)
      ∙ sym (append_assoc root "/target/style-check" (String.◌++◌ "/" name))

  binary_below :
      (root : String) → join (join root "target") "tailwindcss" ≡ join root "target/tailwindcss"
  binary_below root = append_assoc root "/target" "/tailwindcss"

  lift-Keeps : {A : Type 0} (r : Result Failure A) → Keeps (lift r)
  lift-Keeps r w = refl

  module _ (os arch root : String) (confined : IsConfined)
      (outside : (rest : String) → join (join root "target") rest ≢ p) where
    fetch-Keeps : Keeps (fetch m os arch root (join root "target/tailwindcss"))
    fetch-Keeps =
        let binary = join root "target/tailwindcss" in
        bind-Keeps _ _ (lift-Keeps (platform_of os arch)) λ platform.
          bind-Keeps _ _
            (λ w.
              unit_or_io-fst (m.create_dir_all (join root "target") w)
              ∙ confined.create_keeps (join root "target") w)
            λ _.
              bind-Keeps _ _
                (λ w.
                  or_io-fst (m.status (download binary (release_url platform)) w)
                  ∙ confined.download_keeps binary (release_url platform) w
                      (λ e. outside "tailwindcss" (binary_below root ∙ e)))
                λ done. bind-Keeps _ _ (guard-Keeps done _) λ _.
                  bind-Keeps _ _
                    (λ w. unit_or_io-fst (m.set_mode binary w) ∙ confined.mode_keeps binary w)
                    λ _ w. refl

    ensure_tailwind-Keeps : Keeps (ensure_tailwind m os arch root)
    unfolding ensure_tailwind
    ensure_tailwind-Keeps w = elim (Bool-cases (m.exists w (join root "target/tailwindcss"))) [
      | inl h ↦ rw h refl
      | inr h ↦ rw h (fetch-Keeps w)
    ]

    compile_app-Keeps :
        (binary : String) (app : App)
        → Keeps (compile_app m os arch root binary (some (join root "target/style-check")) app)
    unfolding compile_app
    compile_app-Keeps binary app =
        let input = join (join root app.dir) "assets/input.css" in
        let output = output_of root (some (join root "target/style-check")) app in
        bind-Keeps _ _ (λ w. refl)
          λ present. bind-Keeps _ _ (guard-Keeps present _) λ _.
            bind-Keeps _ _
              (λ w.
                or_io-fst (m.status (tailwind root binary input output) w)
                ∙ confined.tailwind_keeps root binary input output w (λ e.
                  outside (String.◌++◌ "style-check/" (String.◌++◌ app.name ".css"))
                    (below_target root (String.◌++◌ app.name ".css") ∙ e)))
              λ done. bind-Keeps _ _ (guard-Keeps done _) λ _.
                bind-Keeps _ _ (λ w. or_io-fst (w, m.size w output))
                  λ bytes. bind-Keeps _ _ (guard-Keeps _ _) λ _ w. refl

    compile_all-Keeps :
        (binary : String) (rest : List App)
        → Keeps (compile_all m os arch root binary (some (join root "target/style-check")) rest)
    unfolding compile_all
    compile_all-Keeps binary [] = λ w. refl
    compile_all-Keeps binary (app ∷ rest) =
        bind-Keeps _ _ (compile_app-Keeps binary app)
          λ sheet. bind-Keeps _ _ (compile_all-Keeps binary rest) λ sheets w. refl

    compile-Keeps : Keeps (compile m os arch (some root) (some (join root "target/style-check")))
    unfolding compile
    compile-Keeps w =
        ap (λ r. m.read r.0 p) (then_run-of _ refl)
        ∙ bind-Keeps (ensure_tailwind m os arch root) _ ensure_tailwind-Keeps
            (λ binary.
              bind-Keeps _ _
                (λ w'.
                  unit_or_io-fst (m.create_dir_all (join root "target/style-check") w')
                  ∙ confined.create_keeps (join root "target/style-check") w')
                λ _. compile_all-Keeps binary apps)
            w

    stale_sheets-Keeps : (sheets : List Stylesheet) → Keeps (stale_sheets m root sheets)
    unfolding stale_sheets
    stale_sheets-Keeps [] = λ w. refl
    stale_sheets-Keeps (sheet ∷ rest) =
        bind-Keeps _ _ (λ w. or_io-fst (w, m.read w sheet.path))
          λ fresh.
            bind-Keeps _ _ (λ w. refl)
              λ old. bind-Keeps _ _ (stale_sheets-Keeps rest) λ later w. refl

    -- The gate leaves every file outside `target` as it was, also when it fails.
    styles_are_current-Keeps : Keeps (styles_are_current m os arch (some root))
    unfolding styles_are_current
    styles_are_current-Keeps w =
        ap (λ r. m.read r.0 p) (then_run-of _ refl)
        ∙ bind-Keeps (compile m os arch (some root) (some (join root "target/style-check"))) _
            compile-Keeps
            (λ sheets. bind-Keeps _ _ (stale_sheets-Keeps sheets) λ stale. guard-Keeps _ _) w

dir_of-apps : (app : String) → (rest : String) × (dir_of app apps ≡ String.◌++◌ "apps" rest)
dir_of-apps app = elim (Bool-cases (str_eq "web" app)) [
  | inl h ↦ ("/web", rw h refl)
  | inr h ↦ elim (Bool-cases (str_eq "app" app)) [
    | inl k ↦ ("/app", rw (h, k) refl)
    | inr k ↦ ("", rw (h, k) refl)
  ]
]

apart : (x y : String) → String.◌++◌ "/target" x ≢ String.◌++◌ "/apps" y
apart x y e =
    let h =
      append_cancel_left "/" (String.◌++◌ "target" x) (String.◌++◌ "apps" y)
        (sym (append_assoc "/" "target" x) ∙ e ∙ append_assoc "/" "apps" y) in
    let k = sym (cons-append "t" "arget" x) ∙ h ∙ cons-append "a" "pps" y in
    let c = ap (λ (d : Char). code d) (head-eq_of_cons-eq k) in absurd (omega (arith, c))

-- The committed stylesheets do not lie in `target`.
committed_outside : (root app rest : String) → join (join root "target") rest ≢ committed root app
unfolding committed
committed_outside root app rest e =
    let (more, d) = dir_of-apps app in
    let under = String.◌++◌ "/" "assets/tailwind.css" in
    apart (String.◌++◌ "/" rest) (String.◌++◌ more under) (
      append_cancel_left root _ _ (
        sym (append_assoc root "/target" (String.◌++◌ "/" rest))
        ∙ e
        ∙ append_assoc root (String.◌++◌ "/" (dir_of app apps)) under
        ∙ ap (λ (t : String). String.◌++◌ root (String.◌++◌ (String.◌++◌ "/" t) under)) d
        ∙ ap (λ (t : String). String.◌++◌ root t)
            (ap (λ (t : String). String.◌++◌ t under) (sym (append_assoc "/" "apps" more))
              ∙ append_assoc "/apps" more under)))

-- The gate on the stylesheets leaves each committed stylesheet as it was, also when it fails at any
-- step. The hypothesis is that Tailwind's binary and `curl` change no file but the one that `-o`
-- names, and that making a directory or setting a mode changes no file's bytes.
pub styles_are_current-read :
    {W : Type 0} (m : Machine W) (os arch root app : String)
    → IsConfined m (committed root app)
    → (w : W)
    → m.read (styles_are_current m os arch (some root) w).0 (committed root app)
      ≡ m.read w (committed root app)
styles_are_current-read m os arch root app confined w =
    styles_are_current-Keeps m (committed root app) os arch root confined
      (committed_outside root app) w
