-- ===== src/Xtask/Release/Pages.antt =====
-- tooling/xtask/src/discovery.rs: what holds of a page that a release holds.
use rust_v.Prelude.{
  String, ◌≡◌, refl, ap, sym, ◌∙◌, true, false, not, ◌&&◌, ◌||◌, List, [], ◌∷◌, ok, bind-ok,
  ok-injective, All, inl, inr, arith, Bool-cases,
}
use rust_v.Prelude.Text.{str_eq}
use rust_v.Prelude.Text.Search.{contains}
use rust_v.Xtask.{Refusal, template_placeholder, forbidden_origin}
use rust_v.Xtask.Origin.{Runtime, static, hydrate, DiscoveryConfig}
use rust_v.Xtask.Html.{
  has_client_handler, strip_runtime, without_html_comments, reject_template_placeholders,
  assert_release_html, Scripts, refuse_any, check_identity, is_hydrate, checked_static,
  placeholders, local_origins, replace_module_scripts, replace_exact_scripts, remove_element,
}
use rust_v.Xtask.Release.{described, transform, stage_page}

pub record IsReleasable (config : DiscoveryConfig) (html : String) : Type 0 where
  pub no_inline_script : contains "<script>" html ≡ false
  pub no_placeholder :
      All (λ (t : String). contains t (without_html_comments html) ≡ false) placeholders
  pub no_local_origin : All (λ (t : String). contains t html ≡ false) local_origins
  pub no_starter : (str_eq config.product_name "rust-v2" || not (contains "rust-v2" html)) ≡ true
  pub identity :
      All
        (λ (t : String). contains t html ≡ true)
        (config.site_url ∷ config.product_name ∷ config.social_image_url ∷ [])

pub refuse_any-ok :
    (refusal : String → Refusal) (html : String) (texts : List String) (u : Unit {0})
    → refuse_any refusal html texts ≡ ok u
    → All (λ (t : String). contains t html ≡ false) texts
refuse_any-ok refusal html [] u h = tt
refuse_any-ok refusal html (text ∷ texts) u h = elim (Bool-cases (contains text html)) [
  | inl found ↦ absurd (ground arith)
  | inr absent ↦ (absent, refuse_any-ok refusal html texts u (rw absent at h))
]

check_identity-ok :
    (config : DiscoveryConfig) (html : String) (u : Unit {0})
    → check_identity config html ≡ ok u
    → ((str_eq config.product_name "rust-v2" || not (contains "rust-v2" html)) ≡ true)
      × (contains config.site_url html ≡ true)
      × (contains config.product_name html ≡ true)
      × (contains config.social_image_url html ≡ true)
      × ((is_hydrate config.runtime && contains "<script>" html) ≡ false)
unfolding check_identity
check_identity-ok config html u h =
    (ground arith, ground arith, ground arith, ground arith, ground arith)

assert_release_html-ok :
    (config : DiscoveryConfig) (html : String) (u : Unit {0})
    → contains "<script>" html ≡ false
    → assert_release_html config html ≡ ok u
    → IsReleasable config html
unfolding assert_release_html reject_template_placeholders
assert_release_html-ok config html u script h =
    let (u1, e1, h1) = bind-ok (reject_template_placeholders html) h in
    let (u2, e2, h2) = bind-ok (refuse_any forbidden_origin html local_origins) h1 in
    let (starter, site, name, image, inline) = check_identity-ok config html u h2 in
    record {
      no_inline_script = script;
      no_placeholder =
          refuse_any-ok template_placeholder (without_html_comments html) placeholders u1 e1;
      no_local_origin = refuse_any-ok forbidden_origin html local_origins u2 e2;
      no_starter = starter;
      identity = (site, (name, (image, tt)));
    }

checked_static-ok :
    (cleaned html : String)
    → checked_static cleaned ≡ ok html
    → (cleaned ≡ html)
      × (contains "<script>" cleaned ≡ false)
      × (contains "type=\"module\"" cleaned ≡ false)
unfolding checked_static
checked_static-ok cleaned html h = (ground arith, ground arith, ground arith)

strip_runtime-ok :
    (original html : String)
    → strip_runtime original ≡ ok html
    → (has_client_handler original ≡ false)
      × (contains "<script>" html ≡ false)
      × (contains "type=\"module\"" html ≡ false)
unfolding strip_runtime
strip_runtime-ok original html h = elim (Bool-cases (has_client_handler original)) [
  | inl k ↦ absurd (ground arith)
  | inr k ↦
      let cleaned =
        replace_module_scripts (replace_exact_scripts "<script>" remove_element original tt).0 in
      let (e, inline, modules) = checked_static-ok cleaned html (rw k at h) in
      (k, rw e at inline, rw e at modules)
]

no_inline :
    (config : DiscoveryConfig) (html : String) (u : Unit {0})
    → config.runtime ≡ hydrate
    → assert_release_html config html ≡ ok u
    → contains "<script>" html ≡ false
unfolding assert_release_html
no_inline config html u r h =
    let (u1, e1, h1) = bind-ok (reject_template_placeholders html) h in
    let (u2, e2, h2) = bind-ok (refuse_any forbidden_origin html local_origins) h1 in
    let (starter, site, name, image, inline) = check_identity-ok config html u h2 in rw r at inline

-- What a staged page has beyond the checks under the static runtime.
abbrev pub StaticPage : Runtime → String → String → Scripts → Scripts → Type 0
StaticPage hydrate original html scripts scripts' = Unit
StaticPage static original html scripts scripts' =
    (scripts' ≡ scripts)
    × (has_client_handler original ≡ false)
    × (contains "type=\"module\"" html ≡ false)

transformed_page :
    (short_hash : String → String) (config : DiscoveryConfig) (runtime : Runtime)
    (original html : String) (scripts scripts' : Scripts) (u : Unit {0})
    → config.runtime ≡ runtime
    → transform short_hash runtime original scripts ≡ ok (html, scripts')
    → assert_release_html config html ≡ ok u
    → IsReleasable config html × StaticPage runtime original html scripts scripts'
transformed_page short_hash config static original html scripts scripts' u r e h =
    let (stripped, e1, h1) = bind-ok (strip_runtime original) e in
    let (handler, inline, modules) = strip_runtime-ok original stripped e1 in
    let pair = ok-injective h1 in
    let same : stripped ≡ html = ap (λ (q : String × Scripts). q.0) pair in
    let kept : scripts ≡ scripts' = ap (λ (q : String × Scripts). q.1) pair in
    (
      assert_release_html-ok config html u (rw same at inline) h,
      (sym kept, handler, rw same at modules),
    )
transformed_page short_hash config hydrate original html scripts scripts' u r e h =
    (assert_release_html-ok config html u (no_inline config html u r h) h, tt)

-- A page that `stage` writes holds no inline script under either runtime, no placeholder of the
-- template outside comments, no local origin, no name of the starter, and the three parts of the
-- product's identity. Under the static runtime no module script is left either, the page that was
-- built has no event handler, and no script is written beside the pages.
pub stage_page_sound :
    (short_hash : String → String) (config : DiscoveryConfig) (original html : String)
    (scripts scripts' : Scripts)
    → stage_page short_hash config original scripts ≡ ok (html, scripts')
    → IsReleasable config html × StaticPage config.runtime original html scripts scripts'
unfolding stage_page
stage_page_sound short_hash config original html scripts scripts' h =
    let (u, e1, h1) = bind-ok (described original) h in
    let (staged, e2, h2) = bind-ok (transform short_hash config.runtime original scripts) h1 in
    let (v, e3, h3) = bind-ok (assert_release_html config staged.0) h2 in
    let same : staged ≡ (html, scripts') = ok-injective h3 in
    transformed_page short_hash config config.runtime original html scripts scripts' v refl
      (e2 ∙ ap (λ (q : String × Scripts). ok q) same)
      (ap (λ (q : String × Scripts). assert_release_html config q.0) (sym same) ∙ e3)
