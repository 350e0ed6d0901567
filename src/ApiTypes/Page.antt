-- ===== src/ApiTypes/Page.antt =====
-- crates/rv2-api-types/src/lib.rs: a page is never empty by its limit, and never larger than asked.
use rust_v.Prelude.{◌≤◌, arith}
use rust_v.ApiTypes.{ListPostsQuery, max_limit, resolved_limit}

-- The limit lies between 1 and the maximum, whatever is asked.
pub resolved_limit_bounds :
    (q : ListPostsQuery) → (1 ≤ resolved_limit q) × (resolved_limit q ≤ max_limit)
unfolding resolved_limit
resolved_limit_bounds q = ground arith
