-- ===== src/Tests/Edges.antt =====
-- The page of posts, the rate limiter's key and the start of a job on concrete inputs.
use rust_v.Prelude.{
  true, false, String, ◌≡◌, ◌≤◌, ◌<◌, ◌≢◌, refl, inl, Option, none, some, [], ◌∷◌, err, arith, Bool,
  List, not, any, Result, ok, if◌then◌else◌,
}
use rust_v.Prelude.Text.{str_eq, split, trim}
use rust_v.ApiTypes.{PostView, ListPostsQuery, max_limit, resolved_limit}
use rust_v.ApiTypes.Page.{resolved_limit_bounds}
use rust_v.Api.{ApiError, sdk, rate_limited, parts, message}
use rust_v.Api.Errors.{is_server_side, message-parts}
use rust_v.Prelude.Text.Entries.{entries}
use rust_v.Api.RateLimit.{layer}
use rust_v.Api.RateLimit.Spoofing.{with_header, layer-prefix}

abbrev old : PostView
old = record {
  id = 1;
  author_id = 5;
  title = "Old";
  content = "Text";
  created_at = 10;
  updated_at = 10;
}

abbrev new : PostView
new = record old { id = 2; created_at = 20 }

abbrev first_page : ListPostsQuery
first_page = record { limit = some 1; offset = none }

abbrev second_page : ListPostsQuery
second_page = record { limit = some 1; offset = some 1 }

resolved_limit_bounds_example :
    (1 ≤ resolved_limit first_page) × (resolved_limit first_page ≤ max_limit)
resolved_limit_bounds_example = resolved_limit_bounds first_page

-- A limiter that lets a key pass once.
abbrev once : List String → String → Bool × List String
once seen key = (not (any (λ k. str_eq k key) seen), key ∷ seen)

abbrev welcome : Result (ApiError String) String
welcome = ok "welcome"

-- The text of a header value; a value with a byte of a two-byte letter has none.
abbrev ascii : Option String → Option String
ascii value = value

layer-prefix_example :
    (ascii (some "1.1.1.1,9.9.9.9") ≢ none
      → layer ascii once
          (λ request. welcome)
          1
          (with_header ascii none (some "1.1.1.1,9.9.9.9"))
          ("9.9.9.9" ∷ [])
        ≡ layer ascii once
            (λ request. welcome)
            1
            (with_header ascii none (some "9.9.9.9"))
            ("9.9.9.9" ∷ []))
    × (ascii (some "1.1.1.1,9.9.9.9") ≡ none
        → layer ascii once
            (λ request. welcome)
            1
            (with_header ascii none (some "1.1.1.1,9.9.9.9"))
            ("9.9.9.9" ∷ [])
          ≡ (
            if (once ("9.9.9.9" ∷ []) "unknown").0 then welcome else err rate_limited,
            (once ("9.9.9.9" ∷ []) "unknown").1,
          ))
unfolding entries split trim
layer-prefix_example =
    layer-prefix ascii none once ("9.9.9.9" ∷ []) welcome (some "1.1.1.1,9.9.9.9") (some "9.9.9.9")
      "1.1.1.1" "9.9.9.9" 1 (inl refl) refl (omega arith)

-- A forged entry that is no visible ASCII: the request is not refused with the proxy's entry.
unreadable_prefix :
    layer ascii once (λ request. welcome) 1 (with_header ascii none none) ("9.9.9.9" ∷ [])
    ≡ (welcome, "unknown" ∷ "9.9.9.9" ∷ [])
unfolding layer
unreadable_prefix = refl

abbrev refused : ApiError String
refused = sdk "connection refused"

message-parts_example :
    (is_server_side refused ≡ true
      → (500 ≤ (parts refused).0) × (message (λ e. "secret") refused ≡ message (λ e. "") refused))
    × (is_server_side refused ≡ false
        → ((400 ≤ (parts refused).0) × ((parts refused).0 < 500))
          × (message (λ e. "secret") refused ≡ "secret"))
message-parts_example = message-parts (λ e. "secret") (λ e. "") refused
