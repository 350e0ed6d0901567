-- ===== src/Api/RateLimit.antt =====
-- apps/api/src/infrastructure/rate_limit.rs: the key under which a client is limited, and the middleware.
pub mod Spoofing
use rust_v.Prelude.{
  ℕ, zero, suc, ◌-◌, String, Bool, not, Option, none, some, List, [], ◌∷◌, map, filter, length,
  get_elem?, ltb, leb, ◌==◌, if◌then◌else◌, Result, err,
}
use rust_v.Api.{ApiError, rate_limited}
use rust_v.Prelude.Opt.{◌>>=◌, unwrap_or}
use rust_v.Prelude.Text.Entries.{entries}
use rust_v.Prelude.Text.{split, trim, is_empty}

-- What the middleware reads of a request: the socket's address, and the first value of the header.
pub record Request (HeaderValue : Type 0) : Type 0 where
  pub peer_ip : Option String
  pub x_forwarded_for : Option HeaderValue

-- `unwrap_or_default()`
abbrev or_empty : Option String → List String
or_empty none = []
or_empty (some header) = entries header

-- `checked_sub`
unfoldable pub checked_sub : ℕ → ℕ → Option ℕ
checked_sub a b = if leb b a then some (a - b) else none

abbrev or_peer : Option String → Option String → Option String
or_peer (some ip) peer = some ip
or_peer none peer = peer

-- The entry that is `trusted_hops` from the end.
unfoldable pub trusted_entry : List String → ℕ → Option String
unfolding checked_sub
trusted_entry ips trusted_hops = do
  index ← checked_sub (length ips) trusted_hops
  get_elem? ips index

-- `HeaderValue::to_str().ok()`, of the crate http: none of a value outside visible ASCII.
module _ {HeaderValue : Type 0} (to_str : HeaderValue → Option String) where
  unfoldable pub forwarded : Option HeaderValue → List String
  forwarded header = or_empty (header >>= to_str)

  unfoldable pub client_key : Request HeaderValue → ℕ → String
  unfolding trusted_entry forwarded
  client_key request trusted_hops =
      if trusted_hops == 0
      then unwrap_or request.peer_ip "unknown"
      else unwrap_or
          (or_peer (trusted_entry (forwarded request.x_forwarded_for) trusted_hops) request.peer_ip)
          "unknown"

  -- The limiter's buckets, which the crate governor keeps: whether the key may pass, and the buckets
  -- behind the check.
  module _ {Limiter SdkError Response : Type 0} (check : Limiter → String → Bool × Limiter) where
    -- `layer`: a request that may not pass does not reach the handler.
    unfoldable pub layer :
        (Request HeaderValue → Result (ApiError SdkError) Response)
        → ℕ
        → Request HeaderValue
        → Limiter
        → Result (ApiError SdkError) Response × Limiter
    unfolding client_key
    layer next trusted_hops request limiter =
        let (passes, limiter') = check limiter (client_key request trusted_hops) in
        (if passes then next request else err rate_limited, limiter')
