-- ===== src/Xtask/Html.antt =====
-- tooling/xtask/src/discovery.rs: what happens to the text of one page of a release.
pub mod Loops
use Prim.Native.String
use rust_v.Prelude.{
  ℕ, zero, suc, String, Bool, true, false, not, ◌&&◌, ◌||◌, Option, none, some, List, [], ◌∷◌, any,
  ok, err, ◌>>=◌, if◌then◌else◌,
}
use rust_v.Prelude.Text.{str_eq}
use rust_v.Prelude.Text.Search.{break_at, contains}
use rust_v.Xtask.{
  Refusal, no_title, unclosed_title, client_handler, still_executable, template_placeholder,
  forbidden_origin, starter_identity, missing_identity, inline_script, Checked,
}
use rust_v.Xtask.Encode.{html_escape}
use rust_v.Xtask.Origin.{Runtime, static, hydrate, DiscoveryConfig}

title_from : String → String → Option (String × String) → Checked String
title_from before title none = err unclosed_title
title_from before title (some (_, rest)) = ok (
    String.◌++◌ before
      (String.◌++◌ "<title>" (String.◌++◌ (html_escape title) (String.◌++◌ "</title>" rest))))

title_at : String → Option (String × String) → Checked String
unfolding title_from
title_at title none = err no_title
title_at title (some (before, body)) = title_from before title (break_at "</title>" body)

unfoldable pub replace_title : String → String → Checked String
unfolding title_at
replace_title html title = title_at title (break_at "<title>" html)

abbrev pub prepend {ℓ} : {A : Type ℓ} → String → String × A → String × A
prepend s (t, a) = (String.◌++◌ s t, a)

-- The text of one element, and what is left behind it.
abbrev pub Element : Type 0
Element = Option (String × String)

-- `body.find("</script>")`
abbrev pub closing : Option (String × String) → Option (String × Element)
closing none = none
closing (some (before, body)) = some (before, break_at "</script>" body)

module _ {ℓ} {A : Type ℓ} (find_element : String → Option (String × Element))
    (replacement : String → A → String × A) where
  -- A round of the loop; `next` is the rest of the loop, and `a` what the replacement changes.
  abbrev pub replaced :
      (String → A → String × A) → String → A → Option (String × Element) → String × A
  replaced next remaining a none = (remaining, a)
  replaced next remaining a (some (before, none)) = (remaining, a)
  replaced next remaining a (some (before, some (inner, rest))) =
      let (new, a') = replacement inner a in prepend before (prepend new (next rest a'))

  -- The loop, on fuel: a round leaves a shorter text.
  unfoldable pub replace_loop : ℕ → String → A → String × A
  replace_loop zero remaining a = (remaining, a)
  replace_loop (suc fuel) remaining a =
      replaced (replace_loop fuel) remaining a (find_element remaining)

abbrev pub exact_element : String → String → Option (String × Element)
exact_element opening html = closing (break_at opening html)

abbrev pub module_marker : String
module_marker = "<script type=\"module\""

abbrev pub after_tag : String → Option (String × String) → Element
after_tag before none = none
after_tag before (some (_, body)) = break_at "</script>" body

-- The end of the tag is looked for from the marker on.
abbrev pub module_element : String → Option (String × Element)
module_element html = elim (break_at module_marker html) [
  | none ↦ none
  | some (before, rest) ↦
      some (before, after_tag before (break_at ">" (String.◌++◌ module_marker rest)))
]

module _ {ℓ} {A : Type ℓ} where
  unfoldable pub replace_exact_scripts :
      String → (String → A → String × A) → String → A → String × A
  unfolding replace_loop
  replace_exact_scripts opening replacement html a =
      replace_loop (exact_element opening) replacement (suc (String.count html)) html a

abbrev pub remove_element : String → Unit {0} → String × Unit {0}
remove_element inner a = ("", a)

unfoldable pub replace_module_scripts : String → String
unfolding replace_loop
replace_module_scripts html =
    (replace_loop module_element remove_element (suc (String.count html)) html tt).0

abbrev pub handler_in : (String → Bool) → Option (String × String) → Bool
handler_in next none = false
handler_in next (some (value, rest)) =
    let later = next rest in if contains ":" value then true else later

abbrev pub handler_value : Option (String × String) → Option (String × String)
handler_value none = none
handler_value (some (_, value)) = break_at "\"" value

unfoldable pub handler_loop : ℕ → String → Bool
handler_loop zero remaining = false
handler_loop (suc fuel) remaining =
    handler_in (handler_loop fuel) (handler_value (break_at "data-node-hydration=\"" remaining))

unfoldable pub has_client_handler : String → Bool
unfolding handler_loop
has_client_handler html = handler_loop (suc (String.count html)) html

abbrev pub uncommented :
    (String → String) → String → Option (String × Option (String × String)) → String
uncommented next remaining none = remaining
uncommented next remaining (some (before, none)) = before
uncommented next remaining (some (before, some (_, rest))) = String.◌++◌ before (next rest)

abbrev pub comment_in : Option (String × String) → Option (String × Option (String × String))
comment_in none = none
comment_in (some (before, comment)) = some (before, break_at "-->" comment)

unfoldable pub comment_loop : ℕ → String → String
comment_loop zero remaining = remaining
comment_loop (suc fuel) remaining =
    uncommented (comment_loop fuel) remaining (comment_in (break_at "<!--" remaining))

unfoldable pub without_html_comments : String → String
unfolding comment_loop
without_html_comments html = comment_loop (suc (String.count html)) html

unfoldable pub checked_static : String → Checked String
checked_static html =
    if contains "<script>" html || contains "type=\"module\"" html
    then err still_executable
    else ok html

unfoldable pub strip_runtime : String → Checked String
unfolding checked_static
strip_runtime html =
    if has_client_handler html
    then err client_handler
    else checked_static
        (replace_module_scripts (replace_exact_scripts "<script>" remove_element html tt).0)

-- `BTreeMap<String, String>` of the scripts by the name of their file.
abbrev pub Scripts : Type 0
Scripts = List (String × String)

abbrev pub or_insert : String → String → Scripts → Scripts
or_insert name source assets =
    if any (λ (kv : String × String). str_eq kv.0 name) assets
    then assets
    else (name, source) ∷ assets

-- `short_hash` is 32 digits of SHA-256, which is not of this repository.
module _ (short_hash : String → String) where
  abbrev pub runtime_name : String → String
  runtime_name source = String.◌++◌ "runtime-inline-" (String.◌++◌ (short_hash source) ".js")

  abbrev pub external : String → Scripts → String × Scripts
  external source assets = (
    String.◌++◌ "<script src=\"/assets/" (String.◌++◌ (runtime_name source) "\"></script>"),
    or_insert (runtime_name source) source assets,
  )

  unfoldable pub externalize_runtime : String → Scripts → String × Scripts
  externalize_runtime html assets = replace_exact_scripts "<script>" external html assets

-- The first of the texts that the page holds is refused.
abbrev pub refuse_any : (String → Refusal) → String → List String → Checked (Unit {0})
refuse_any refusal html [] = ok tt
refuse_any refusal html (text ∷ texts) =
    let rest = refuse_any refusal html texts in
    if contains text html then err (refusal text) else rest

abbrev pub placeholders : List String
placeholders = "{app_title}" ∷ "{style_include}" ∷ "{script}" ∷ "{script_include}" ∷ []

abbrev pub local_origins : List String
local_origins = "localhost" ∷ "127.0.0.1" ∷ "example.invalid" ∷ []

unfoldable pub reject_template_placeholders : String → Checked (Unit {0})
reject_template_placeholders html =
    refuse_any template_placeholder (without_html_comments html) placeholders

abbrev pub is_hydrate : Runtime → Bool
is_hydrate static = false
is_hydrate hydrate = true

unfoldable pub check_identity : DiscoveryConfig → String → Checked (Unit {0})
check_identity config html =
    if not (str_eq config.product_name "rust-v2") && contains "rust-v2" html
    then err starter_identity
    else if not (contains config.site_url html)
        || not (contains config.product_name html)
        || not (contains config.social_image_url html)
    then err missing_identity
    else if is_hydrate config.runtime && contains "<script>" html
    then err inline_script
    else ok tt

unfoldable pub assert_release_html : DiscoveryConfig → String → Checked (Unit {0})
unfolding check_identity
assert_release_html config html = do
  _ ← reject_template_placeholders html
  _ ← refuse_any forbidden_origin html local_origins
  check_identity config html
