-- ===== src/Api/RateLimit/Spoofing.antt =====
-- apps/api/src/infrastructure/rate_limit.rs: what a client can and cannot do with the header.
use Prim.Native.String
use rust_v.Prelude.{
  ℕ, zero, suc, ◌+◌, ◌-◌, ◌≤◌, ◌<◌, String, ◌≡◌, ◌≢◌, refl, true, Option, none, some, List, ◌++◌,
  length, length-append, get_elem?-append, arith, leb, Bool, Result, err, ◌⊎◌, inl, inr,
  if◌then◌else◌,
}
use rust_v.Prelude.Opt.{unwrap_or}
use rust_v.Prelude.Text.Entries.{entries, entries-append}
use rust_v.Api.{ApiError, rate_limited}
use rust_v.Api.RateLimit.{Request, forwarded, trusted_entry, client_key, layer}

trusted_entry-append :
    (xs ys : List String) (hops : ℕ)
    → hops ≤ length ys
    → trusted_entry (xs ++ ys) hops ≡ trusted_entry ys hops
unfolding trusted_entry
trusted_entry-append xs ys hops h =
    let within : leb hops (length ys) ≡ true = ground arith in
    let within' : leb hops (length (xs ++ ys)) ≡ true = ground (arith, length-append xs ys) in
    let at : length (xs ++ ys) - hops ≡ length xs + (length ys - hops) =
      omega (arith, length-append xs ys) in
    rw (within, within', at) (get_elem?-append xs ys (length ys - hops))

-- The key that the middleware passes to the limiter decides the rest, for a handler that does not look
-- at the header.
module _ {HeaderValue : Type 0} (to_str : HeaderValue → Option String) (peer : Option String) where
  abbrev pub with_header : HeaderValue → Request HeaderValue
  with_header value = record { peer_ip = peer; x_forwarded_for = some value }

  -- A value that reads as a text with enough entries behind a comma gives the key of those entries.
  client_key-prefix :
      (value plain : HeaderValue) (forged header : String) (hops : ℕ)
      → to_str value ≡ some (String.◌++◌ forged (String.◌∷◌ "," header))
      → to_str plain ≡ some header
      → hops ≤ length (entries header)
      → client_key to_str (with_header value) hops ≡ client_key to_str (with_header plain) hops
  unfolding client_key forwarded
  client_key-prefix value plain forged header hops read read' h =
      rw
        (
          read,
          read',
          entries-append forged header,
          trusted_entry-append (entries forged) (entries header) hops h,
        )
        refl

  -- A value that is no text is as good as none.
  client_key-unreadable :
      (value : HeaderValue) (hops : ℕ)
      → to_str value ≡ none
      → client_key to_str (with_header value) hops
        ≡ client_key to_str (record { peer_ip = peer; x_forwarded_for = none }) hops
  unfolding client_key forwarded
  client_key-unreadable value hops read = rw read refl

  -- When the header has fewer entries than there are trusted hops, no entry of it is used: the key is
  -- the socket's address, or "unknown" without one.
  client_key-fallback :
      (request : Request HeaderValue) (hops : ℕ)
      → length (forwarded to_str request.x_forwarded_for) < hops
      → client_key to_str request hops ≡ unwrap_or request.peer_ip "unknown"
  unfolding client_key trusted_entry
  client_key-fallback request hops h = ground arith

  no_entries :
      (hops : ℕ)
      → client_key to_str (record { peer_ip = peer; x_forwarded_for = none }) hops
        ≡ unwrap_or peer "unknown"
  unfolding client_key forwarded
  no_entries zero = refl
  no_entries (suc hops) =
      client_key-fallback (record { peer_ip = peer; x_forwarded_for = none }) (suc hops)
        (omega arith)

  -- A header that is some text with a comma before the entries of the trusted proxies, at least as
  -- many as there are trusted hops: when it reads as a text, the request takes from the same bucket,
  -- and is answered or refused, as with those entries alone. When it does not, since something in it is
  -- no visible ASCII, it takes from the bucket of the socket's address, whatever the proxies appended.
  pub layer-prefix :
      {Limiter SdkError Response : Type 0} (check : Limiter → String → Bool × Limiter)
      (limiter : Limiter) (answer : Result (ApiError SdkError) Response) (value plain : HeaderValue)
      (forged header : String) (hops : ℕ)
      → (to_str value ≡ some (String.◌++◌ forged (String.◌∷◌ "," header))) ⊎ (to_str value ≡ none)
      → to_str plain ≡ some header
      → hops ≤ length (entries header)
      → (to_str value ≢ none
          → layer to_str check (λ request. answer) hops (with_header value) limiter
            ≡ layer to_str check (λ request. answer) hops (with_header plain) limiter)
        × (to_str value ≡ none
            → layer to_str check (λ request. answer) hops (with_header value) limiter ≡ (
              if (check limiter (unwrap_or peer "unknown")).0 then answer else err rate_limited,
              (check limiter (unwrap_or peer "unknown")).1,
            ))
  unfolding layer
  layer-prefix check limiter answer value plain forged header hops read read' h = (
    λ readable. elim read [
      | inl e ↦ rw (client_key-prefix value plain forged header hops e read' h) refl
      | inr e ↦ absurd (readable e)
    ],
    λ e. rw (client_key-unreadable value hops e, no_entries hops) refl,
  )
