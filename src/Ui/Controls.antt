-- ===== src/Ui/Controls.antt =====
-- crates/rv2-ui/src/primitives.rs and typography.rs: buttons, links and marks. Of the classes only
-- what a property of the component decides on is kept.
use rust_v.Prelude.{
  ℕ, String, ◌≡◌, Bool, false, not, ◌&&◌, ◌||◌, Option, none, some, ◌==◌, arith, if◌then◌else◌,
}
use rust_v.Ui.Navigation.{then_some}

pub data Variant : Type 0 where
  primary secondary outline danger ghost link : Variant

unfoldable pub variant_classes : Variant → String
variant_classes primary = "font-medium bg-ink text-on-ink hover:bg-ink-hover"
variant_classes secondary = "font-medium bg-raised text-ink hover:bg-raised"
variant_classes outline = "font-medium border border-rule bg-transparent text-ink hover:bg-raised"
variant_classes danger = "font-medium bg-fault text-on-ink hover:bg-fault-ink"
variant_classes ghost = "font-medium bg-transparent text-ink hover:bg-raised"
variant_classes link = "bg-transparent text-ink-muted underline hover:text-ink"

pub data Size : Type 0 where
  small regular large : Size

abbrev text_size : Size → String
text_size small = "text-xs"
text_size regular = "text-sm"
text_size large = "text-base"

abbrev padded : Size → String
padded small = "px-3 py-1 text-xs"
padded regular = "px-4 py-2 text-sm"
padded large = "px-6 py-3 text-base"

-- A link has no padding.
unfoldable pub size_classes : Size → Variant → String
size_classes size link = text_size size
size_classes size _ = padded size

pub record ButtonProps : Type 0 where
  pub disabled : Bool
  pub busy : Bool
  pub has_handler : Bool

pub record ButtonShown : Type 0 where
  pub disabled : Bool
  pub aria_busy : Bool

unfoldable pub button : ButtonProps → ButtonShown
button p = record { disabled = p.disabled || p.busy; aria_busy = p.busy }

-- Whether a click calls the handler.
unfoldable pub press : ButtonProps → Bool
press p = not p.disabled && not p.busy && p.has_handler

pub record LinkShown : Type 0 where
  pub href : Option String
  pub target : Option String
  pub rel : Option String
  pub aria_disabled : Option String
  pub state : String

unfoldable pub link_button : String → Bool → Bool → LinkShown
link_button href external disabled = record {
  href = then_some (not disabled) href;
  target = then_some external "_blank";
  rel = then_some external "noopener noreferrer";
  aria_disabled = then_some disabled "true";
  state = if disabled then "opacity-50 pointer-events-none" else "";
}

unfoldable pub text_link : String → Bool → LinkShown
text_link href external = record {
  href = some href;
  target = then_some external "_blank";
  rel = then_some external "noopener noreferrer";
  aria_disabled = none;
  state = "";
}

pub data StatusTone : Type 0 where
  good warn bad muted : StatusTone

unfoldable pub dot : StatusTone → String
dot good = "bg-takeable"
dot warn = "bg-caution"
dot bad = "bg-fault"
dot muted = "bg-ink-faint"

unfoldable pub text : StatusTone → String
text good = "text-takeable-ink"
text warn = "text-caution-ink"
text bad = "text-fault-ink"
text muted = "text-ink-muted"

-- The level that `Heading` renders: a level that it does not know is the second.
unfoldable pub heading_level : ℕ → ℕ
heading_level level = if level == 1 || level == 3 || level == 4 then level else 2

-- A click calls a button's handler exactly if it has one and the button is not shown as disabled;
-- a busy button is shown as busy and calls nothing.
press-shown :
    (p : ButtonProps)
    → (press p ≡ (not (button p).disabled && p.has_handler))
      × ((press p && (button p).aria_busy) ≡ false)
unfolding press button
press-shown p = ground arith
