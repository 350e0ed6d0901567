-- ===== src/Shared/Roles/Admin.antt =====
-- crates/rv2-shared/src/auth.rs: who is an administrator.
use rust_v.Prelude.{
  ℕ, String, ◌≡◌, refl, ◌∙◌, Bool, inl, inr, List, [], ◌∷◌, map, any, All, Bool-cases,
}
use rust_v.Prelude.Sorted.{sorted_set, any-sorted_set}
use rust_v.Prelude.Text.{str_eq, str_eq_iff}
use rust_v.Prelude.Text.Lowercase.{to_ascii_lowercase}
use rust_v.Prelude.Text.Entries.{entries, IsEntry, entries-All}
use rust_v.Shared.Roles.{
  Role, admin, role_lt, named, from_str, or_base, role_eq, parse_set, is_admin,
}
use rust_v.Shared.Roles.Stored.{role_order}

abbrev is_admin_role : Role → Bool
is_admin_role role = role_eq role admin

abbrev says_admin : String → Bool
says_admin part = str_eq (to_ascii_lowercase part) "admin"

named-admin : (s : String) → is_admin_role (named s) ≡ str_eq s "admin"
named-admin s = elim (Bool-cases (str_eq s "user")) [
  | inl h ↦ rw ((str_eq_iff s "user").0 h) refl
  | inr h ↦ elim (Bool-cases (str_eq s "admin")) [ inl k ↦ rw (h, k) refl | inr k ↦ rw (h, k) refl ]
]

any-from_str :
    (parts : List String)
    → All IsEntry parts
    → any is_admin_role (map from_str parts) ≡ any says_admin parts
unfolding from_str
any-from_str [] h = refl
any-from_str (part ∷ parts) (h, hs) =
    rw (h.trimmed, named-admin (to_ascii_lowercase part), any-from_str parts hs) refl

any-or_base : (roles : List Role) → any is_admin_role (or_base roles) ≡ any is_admin_role roles
any-or_base [] = refl
any-or_base (role ∷ roles) = refl

-- A user whose record holds the text `raw` is an administrator exactly when an entry of the text is
-- "admin", in letters of either case; no other text makes one.
pub is_admin_iff :
    (id : ℕ) (email raw : String)
    → is_admin (record { id = id; email = email; roles = parse_set raw })
      ≡ any (λ part. str_eq (to_ascii_lowercase part) "admin") (entries raw)
unfolding is_admin parse_set
is_admin_iff id email raw =
    any-or_base (sorted_set role_lt (map from_str (entries raw)))
    ∙ any-sorted_set role_lt role_order is_admin_role (map from_str (entries raw))
    ∙ any-from_str (entries raw) (entries-All raw)
