-- ===== src/Shared/Roles.antt =====
-- crates/rv2-shared/src/auth.rs: the roles of a principal, which a user's record holds as one text.
pub mod Stored
pub mod Admin
use rust_v.Prelude.{ℕ, String, Bool, true, false, ◌||◌, List, [], ◌∷◌, map, any, if◌then◌else◌}
use rust_v.Prelude.Sorted.{sorted_set}
use rust_v.Prelude.Text.{str_eq, trim}
use rust_v.Prelude.Text.Lowercase.{to_ascii_lowercase}
use rust_v.Prelude.Text.Order.{text_lt}
use rust_v.Prelude.Text.Entries.{entries, join}

pub data Role : Type 0 where
  user admin : Role
  other : (name : String) → Role

abbrev pub as_str : Role → String
as_str user = "user"
as_str admin = "admin"
as_str (other name) = name

-- The derived `Ord`: the variants in their order, then the names.
abbrev pub role_lt : Role → Role → Bool
role_lt user user = false
role_lt user admin = true
role_lt user (other b) = true
role_lt admin user = false
role_lt admin admin = false
role_lt admin (other b) = true
role_lt (other a) user = false
role_lt (other a) admin = false
role_lt (other a) (other b) = text_lt a b

abbrev pub named : String → Role
named name = if str_eq name "user" then user else if str_eq name "admin" then admin else other name

-- `Role::from_str`, which cannot fail.
unfoldable pub from_str : String → Role
from_str s = named (to_ascii_lowercase (trim s))

abbrev pub or_base : List Role → List Role
or_base [] = user ∷ []
or_base (role ∷ roles) = role ∷ roles

unfoldable pub parse_set : String → List Role
parse_set raw = or_base (sorted_set role_lt (map from_str (entries raw)))

unfoldable pub render_set : List Role → String
render_set roles = join (map as_str roles)

abbrev pub role_eq : Role → Role → Bool
role_eq user user = true
role_eq admin admin = true
role_eq (other a) (other b) = str_eq a b
role_eq _ _ = false

pub record AuthUser : Type 0 where
  pub id : ℕ
  pub email : String
  pub roles : List Role

unfoldable pub has_role : AuthUser → Role → Bool
has_role principal role = any (λ r. role_eq r role) principal.roles

unfoldable pub is_admin : AuthUser → Bool
unfolding has_role
is_admin principal = has_role principal admin
