-- ===== src/Domain.antt =====
-- crates/rv2-domain/src/lib.rs: a rejected command and the check that the fields share.
pub mod Bounded
pub mod Post
pub mod Profile
use Prim.Native.String
use rust_v.Prelude.{ℕ, String, Result, ok, err, ltb, if◌then◌else◌}
use rust_v.Prelude.Text.{trim, is_empty}

-- The reasons that the sources format into a text.
pub data Reason : Type 0 where
  must_not_be_empty : Reason
  must_be_at_most : (max got : ℕ) → Reason
  must_change_a_field : Reason
  must_contain_at : Reason
  must_be_http_url : Reason

pub record ValidationError : Type 0 where
  pub field : String
  pub reason : Reason

abbrev pub Validated {ℓ} : Type ℓ → Type ℓ
Validated A = Result ValidationError A

-- `if len > max { return Err(…) }` and the rest, on the trimmed text.
bounded : String → ℕ → String → Validated String
bounded name max trimmed =
    if is_empty trimmed
    then err (record { field = name; reason = must_not_be_empty })
    else if ltb max (String.count trimmed)
    then err (record { field = name; reason = must_be_at_most max (String.count trimmed) })
    else ok trimmed

unfoldable pub non_empty_bounded : String → String → ℕ → Validated String
unfolding bounded
non_empty_bounded name value max = bounded name max (trim value)
