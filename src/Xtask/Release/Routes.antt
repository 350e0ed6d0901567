-- ===== src/Xtask/Release/Routes.antt =====
-- tooling/xtask/src/discovery.rs: what holds of a whole release.
use mathlib.Core.List.{Memᴰ}
use rust_v.Prelude.{
  ℕ, String, ◌≡◌, refl, ap, ◌∙◌, subst, Bool, true, false, not, ◌&&◌, ◌↔◌, List, [], ◌∷◌, map, any,
  All, ok, bind-ok, ok-injective, arith,
}
use rust_v.Prelude.Sorted.{Ascending, sorted_set, sorted_set-Ascending, mem-sorted_set}
use rust_v.Prelude.Members.{mem-filter}
use rust_v.Prelude.Text.{str_eq}
use rust_v.Prelude.Text.Search.{contains}
use rust_v.Prelude.Text.Order.{text_lt, text_order}
use rust_v.Xtask.{Refusal, no_output, no_html, no_root_route, no_summary}
use rust_v.Xtask.Origin.{Runtime, static, hydrate, DiscoveryConfig}
use rust_v.Xtask.Html.{Scripts}
use rust_v.Xtask.Assets.{Asset, prune_unreferenced_assets}
use rust_v.Xtask.Assets.Reach.{Reaches, prune_unreferenced_assets_correct}
use rust_v.Xtask.Release.{
  Page, Staged, Release, route_for_html, stage_page, stage_pages, stage, sources_of, is_index,
  is_script, check, assets_under, write_scripts, remove_script_assets, is_nil,
}
use rust_v.Xtask.Release.Pages.{IsReleasable, StaticPage, stage_page_sound}

module _ (short_hash : String → String) (config : DiscoveryConfig) where
  -- What the loop over the pages leaves.
  record AreStaged (pages : List Page) (scripts : Scripts) (staged : Staged) : Type 0 where
    releasable : All (λ (p : Page). IsReleasable config p.html) staged.pages
    routes : staged.routes ≡ map route_for_html pages
    kept : config.runtime ≡ static → staged.scripts ≡ scripts

  static-kept :
      (original html : String) (scripts scripts' : Scripts)
      → config.runtime ≡ static
      → StaticPage config.runtime original html scripts scripts'
      → scripts' ≡ scripts
  static-kept original html scripts scripts' r h = (rw r at h).0

  stage_pages-ok :
      (pages : List Page) (scripts : Scripts) (staged : Staged)
      → stage_pages short_hash config pages scripts ≡ ok staged
      → AreStaged pages scripts staged
  unfolding stage_pages
  stage_pages-ok [] scripts staged h =
      subst (λ (s : Staged). AreStaged [] scripts s) (ok-injective h)
        (record { releasable = tt; routes = refl; kept = λ r. refl })
  stage_pages-ok (page ∷ pages) scripts staged h =
      let (first, e1, h1) = bind-ok (stage_page short_hash config page.html scripts) h in
      let (rest, e2, h2) = bind-ok (stage_pages short_hash config pages first.1) h1 in
      let (good, extra) = stage_page_sound short_hash config page.html first.0 scripts first.1 e1 in
      let ih = stage_pages-ok pages first.1 rest e2 in
      subst (λ (s : Staged). AreStaged (page ∷ pages) scripts s) (ok-injective h2)
        (record {
          releasable = (good, ih.releasable);
          routes = ap (λ (rs : List String). route_for_html page ∷ rs) ih.routes;
          kept = λ r. ih.kept r ∙ static-kept page.html first.0 scripts first.1 r extra;
        })

pub check-ok : (b : Bool) (refusal : Refusal) (u : Unit {0}) → check b refusal ≡ ok u → b ≡ true
check-ok true refusal u h = refl
check-ok false refusal u h = absurd (ground arith)

-- Under the static runtime no asset is a script, and each was built and is reached from the pages.
abbrev pub StaticAssets : Runtime → List Asset → List (List ℕ) → List Asset → Type 0
StaticAssets hydrate assets sources kept = Unit
StaticAssets static assets sources kept =
    All
      (λ (asset : Asset).
        (is_script asset ≡ false)
        × Memᴰ asset assets
        × Reaches sources (remove_script_assets assets) asset)
      kept

-- What a release promises, from the pages and the assets that were built.
pub record IsSound (config : DiscoveryConfig) (pages : List Page) (assets : List Asset)
    (release : Release) : Type 0 where
  pub releasable : All (λ (p : Page). IsReleasable config p.html) release.pages
  pub ascending : Ascending text_lt release.routes
  pub every_route :
      (route : String) → Memᴰ route release.routes ↔ Memᴰ route (map route_for_html pages)
  pub root : any (λ r. str_eq r "/") release.routes ≡ true
  pub summary :
      any (λ (p : Page). is_index p && contains config.product_summary p.html) release.pages ≡ true
  pub static_assets : StaticAssets config.runtime assets (sources_of release.pages) release.assets

All-of_mem {ℓ κ} :
    {A : Type ℓ} (P : A → Type κ) (xs : List A) → ((x : A) → Memᴰ x xs → P x) → All P xs
All-of_mem P [] h = tt
All-of_mem P (x ∷ xs) h = (h x (Memᴰ.head refl), All-of_mem P xs (λ y m. h y (Memᴰ.tail m)))

static_asset :
    (runtime : Runtime) (scripts : Scripts) (assets : List Asset) (sources : List (List ℕ))
    → (runtime ≡ static → scripts ≡ [])
    → StaticAssets runtime assets sources
        (prune_unreferenced_assets (write_scripts scripts (assets_under runtime assets)) sources)
static_asset hydrate scripts assets sources s = tt
static_asset static scripts assets sources s = rw (s refl) (
    All-of_mem
      (λ (asset : Asset).
        (is_script asset ≡ false)
        × Memᴰ asset assets
        × Reaches sources (remove_script_assets assets) asset)
      (prune_unreferenced_assets (remove_script_assets assets) sources)
      (λ asset m.
        let (k, reaches) =
          (prune_unreferenced_assets_correct (remove_script_assets assets) sources asset).0 m in
        let (n, e) = mem-filter (λ a. not (is_script a)) asset assets k in
        (ground arith, n, reaches)))

-- Every release that `stage` returns: each of its pages is fit to be published; its routes, which the
-- sitemap lists, are in order without repetition, are those of the pages that were built and no
-- others, and hold the root, whose page states the product's summary. Under the static runtime no
-- JavaScript and no WebAssembly is among its assets, each of which was built and is reached from its
-- pages.
pub stage-IsSound :
    (short_hash : String → String) (config : DiscoveryConfig) (pages : List Page)
    (assets : List Asset) (release : Release)
    → stage short_hash config pages assets ≡ ok release
    → IsSound config pages assets release
unfolding stage
stage-IsSound short_hash config pages assets release h =
    let (u0, e0, h0) = bind-ok (check (any is_index pages) no_output) h in
    let (u1, e1, h1) = bind-ok (check (not (is_nil pages)) no_html) h0 in
    let (staged, e2, h2) = bind-ok (stage_pages short_hash config pages []) h1 in
    let routes = sorted_set text_lt staged.routes in
    let (u3, e3, h3) = bind-ok (check (any (λ r. str_eq r "/") routes) no_root_route) h2 in
    let home =
      any (λ (p : Page). is_index p && contains config.product_summary p.html) staged.pages in
    let (u4, e4, h4) = bind-ok (check home no_summary) h3 in
    let inv = stage_pages-ok short_hash config pages [] staged e2 in
    subst (λ (r : Release). IsSound config pages assets r) (ok-injective h4)
      (record {
        releasable = inv.releasable;
        ascending = sorted_set-Ascending text_lt text_order staged.routes;
        every_route =
            λ route. rw (← inv.routes) (mem-sorted_set text_lt text_order route staged.routes);
        root = check-ok (any (λ r. str_eq r "/") routes) no_root_route u3 e3;
        summary = check-ok home no_summary u4 e4;
        static_assets =
            static_asset config.runtime staged.scripts assets (sources_of staged.pages) inv.kept;
      })
