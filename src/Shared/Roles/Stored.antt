-- ===== src/Shared/Roles/Stored.antt =====
-- crates/rv2-shared/src/auth.rs: the stored text of a set of roles.
use rust_v.Prelude.{
  String, ◌≡◌, refl, sym, ap, ◌∙◌, true, false, inl, inr, List, [], ◌∷◌, map, All, arith,
  Bool-cases,
}
use rust_v.Prelude.Sorted.{
  IsStrictOrder, Ascending, sorted_set, sorted_set-Ascending, sorted_set-of_Ascending,
  All-sorted_set,
}
use rust_v.Prelude.Text.{
  str_eq, str_eq_iff, trim, trim_start, trim_end, is_whitespace, contains_char,
}
use rust_v.Prelude.Text.Lowercase.{
  to_ascii_lowercase, to_ascii_lowercase_idem, trim-to_ascii_lowercase, is_empty-to_ascii_lowercase,
  comma-to_ascii_lowercase, to_ascii_lowercase_user,
}
use rust_v.Prelude.Text.Order.{text_lt_irrefl, text_lt_trans, text_lt_connected}
use rust_v.Prelude.Text.Entries.{entries, IsEntry, entries-join, entries-All}
use rust_v.Shared.Roles.{
  Role, user, admin, other, as_str, role_lt, named, from_str, or_base, parse_set, render_set,
}

role_lt_irrefl : (a : Role) → role_lt a a ≡ false
role_lt_irrefl user = refl
role_lt_irrefl admin = refl
role_lt_irrefl (other a) = text_lt_irrefl a

role_lt_trans : (a b c : Role) → role_lt a b ≡ true → role_lt b c ≡ true → role_lt a c ≡ true
role_lt_trans user user c h k = k
role_lt_trans user admin user h k = k
role_lt_trans user admin admin h k = refl
role_lt_trans user admin (other c) h k = refl
role_lt_trans user (other b) user h k = k
role_lt_trans user (other b) admin h k = refl
role_lt_trans user (other b) (other c) h k = refl
role_lt_trans admin user c h k = absurd (ground arith)
role_lt_trans admin admin c h k = k
role_lt_trans admin (other b) user h k = k
role_lt_trans admin (other b) admin h k = k
role_lt_trans admin (other b) (other c) h k = refl
role_lt_trans (other a) user c h k = absurd (ground arith)
role_lt_trans (other a) admin c h k = absurd (ground arith)
role_lt_trans (other a) (other b) user h k = k
role_lt_trans (other a) (other b) admin h k = k
role_lt_trans (other a) (other b) (other c) h k = text_lt_trans a b c h k

role_lt_connected : (a b : Role) → role_lt a b ≡ false → role_lt b a ≡ false → a ≡ b
role_lt_connected user user h k = refl
role_lt_connected user admin h k = absurd (ground arith)
role_lt_connected user (other b) h k = absurd (ground arith)
role_lt_connected admin user h k = absurd (ground arith)
role_lt_connected admin admin h k = refl
role_lt_connected admin (other b) h k = absurd (ground arith)
role_lt_connected (other a) user h k = absurd (ground arith)
role_lt_connected (other a) admin h k = absurd (ground arith)
role_lt_connected (other a) (other b) h k =
    ap (λ (name : String). other name) (text_lt_connected a b h k)

pub role_order : IsStrictOrder role_lt
role_order = record {
  irrefl = role_lt_irrefl;
  trans = role_lt_trans;
  connected = role_lt_connected;
}

-- A role whose text is an entry of a list, and which that text names again.
pub record IsStored (role : Role) : Type 0 where
  pub entry : IsEntry (as_str role)
  pub again : from_str (as_str role) ≡ role

trim_user : trim "user" ≡ "user"
unfolding trim trim_start trim_end is_whitespace
trim_user = refl

IsStored-user : IsStored user
IsStored-user = record {
  entry = record { trimmed = trim_user; inhabited = refl; no_comma = unfold contains_char in refl };
  again = unfold from_str in rw (trim_user, to_ascii_lowercase_user) refl;
}

IsEntry-lowercase : (s : String) → IsEntry s → IsEntry (to_ascii_lowercase s)
IsEntry-lowercase s e = record {
  trimmed = trim-to_ascii_lowercase s ∙ ap (λ (t : String). to_ascii_lowercase t) e.trimmed;
  inhabited = is_empty-to_ascii_lowercase s ∙ e.inhabited;
  no_comma = comma-to_ascii_lowercase s ∙ e.no_comma;
}

as_str-named : (s : String) → as_str (named s) ≡ s
as_str-named s = elim (Bool-cases (str_eq s "user")) [
  | inl h ↦ rw h (sym ((str_eq_iff s "user").0 h))
  | inr h ↦ elim (Bool-cases (str_eq s "admin")) [
    | inl k ↦ rw (h, k) (sym ((str_eq_iff s "admin").0 k))
    | inr k ↦ rw (h, k) refl
  ]
]

from_str-IsStored : (s : String) → IsEntry s → IsStored (from_str s)
unfolding from_str
from_str-IsStored s e =
    let text : as_str (named (to_ascii_lowercase (trim s))) ≡ to_ascii_lowercase s =
      as_str-named (to_ascii_lowercase (trim s)) ∙ rw (e.trimmed) refl in
    let stored = IsEntry-lowercase s e in
    record {
      entry = rw text stored;
      again = rw (text, stored.trimmed, to_ascii_lowercase_idem s, e.trimmed) refl;
    }

from_str-All : (parts : List String) → All IsEntry parts → All IsStored (map from_str parts)
from_str-All [] h = tt
from_str-All (part ∷ parts) (h, hs) = (from_str-IsStored part h, from_str-All parts hs)

or_base-All : (roles : List Role) → All IsStored roles → All IsStored (or_base roles)
or_base-All [] h = (IsStored-user, tt)
or_base-All (role ∷ roles) h = h

or_base-Ascending :
    (roles : List Role) → Ascending role_lt roles → Ascending role_lt (or_base roles)
or_base-Ascending [] h = (tt, tt)
or_base-Ascending (role ∷ roles) h = h

or_base-nonempty :
    (roles : List Role) → (role : Role) × (rest : List Role) × (or_base roles ≡ role ∷ rest)
or_base-nonempty [] = (user, [], refl)
or_base-nonempty (role ∷ roles) = (role, roles, refl)

texts-All : (roles : List Role) → All IsStored roles → All IsEntry (map as_str roles)
texts-All [] h = tt
texts-All (role ∷ roles) (h, hs) = (h.entry, texts-All roles hs)

from_str-as_str : (roles : List Role) → All IsStored roles → map from_str (map as_str roles) ≡ roles
from_str-as_str [] h = refl
from_str-as_str (role ∷ roles) (h, hs) = rw (h.again, from_str-as_str roles hs) refl

-- A set of roles that can be stored is read back as it was.
parse_set-render_set :
    (role : Role) (roles : List Role)
    → All IsStored (role ∷ roles)
    → Ascending role_lt (role ∷ roles)
    → parse_set (render_set (role ∷ roles)) ≡ role ∷ roles
unfolding parse_set render_set
parse_set-render_set role roles (h, hs) ascending =
    rw
      (
        entries-join (as_str role) (map as_str roles) (h.entry, texts-All roles hs),
        h.again,
        from_str-as_str roles hs,
        sorted_set-of_Ascending role_lt role_order (role ∷ roles) ascending,
      )
      refl

parse_set-All : (raw : String) → All IsStored (parse_set raw)
unfolding parse_set
parse_set-All raw = or_base-All (sorted_set role_lt (map from_str (entries raw))) (
    All-sorted_set role_lt IsStored (map from_str (entries raw))
      (from_str-All (entries raw) (entries-All raw)))

parse_set-Ascending : (raw : String) → Ascending role_lt (parse_set raw)
unfolding parse_set
parse_set-Ascending raw =
    or_base-Ascending (sorted_set role_lt (map from_str (entries raw)))
      (sorted_set-Ascending role_lt role_order (map from_str (entries raw)))

parse_set-nonempty :
    (raw : String) → (role : Role) × (roles : List Role) × (parse_set raw ≡ role ∷ roles)
unfolding parse_set
parse_set-nonempty raw = or_base-nonempty (sorted_set role_lt (map from_str (entries raw)))

-- The roles that any stored text is read as are a set in order that is not empty. Each has a text
-- that is trimmed, not empty, without a comma, and names the role again; and the set, written and
-- read once more, is the same.
pub parse_set_roundtrip :
    (raw : String)
    → Ascending role_lt (parse_set raw)
      × All IsStored (parse_set raw)
      × ((role : Role) × (roles : List Role) × (parse_set raw ≡ role ∷ roles))
      × (parse_set (render_set (parse_set raw)) ≡ parse_set raw)
parse_set_roundtrip raw =
    let (role, roles, e) = parse_set-nonempty raw in
    (
      parse_set-Ascending raw,
      parse_set-All raw,
      (role, roles, e),
      rw e (
          parse_set-render_set role roles (rw e at (parse_set-All raw))
            (rw e at (parse_set-Ascending raw))),
    )
