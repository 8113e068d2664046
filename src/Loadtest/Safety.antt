-- ===== src/Loadtest/Safety.antt =====
-- cmd/loadtest/main.go: what `validate` lets through.
use usage_billing.Prelude.{
  Bytes, codes, same_iff, Bool, true, false, not, ◌||◌, Option, none, some, [], ◌∷◌, length, ltb,
  ◌≡◌, refl, arith, if◌then◌else◌,
}
use usage_billing.Prelude.Int.{pos, ◌≤ℤ◌}
use usage_billing.Errors.{Error, ok}
use usage_billing.Http.Handler.{new_handler, is_refused, any_byte}
use usage_billing.Loadtest.{
  Config, Parsers, Url, Address, is_origin, is_local, host_of, any_unsafe, out_of_bounds, validate,
}

-- A run that spares everything but a service on this host, within its bounds, and has a token that
-- the service can be started with.
pub record IsSafe (hash : Bytes → Bytes) (p : Parsers) (cfg : Config) : Type 0 where
  pub url : Url
  pub parses : p.url cfg.base_url ≡ some url
  pub scheme : url.scheme ≡ codes "http"
  pub user : url.has_user ≡ false
  pub query : url.raw_query ≡ []
  pub fragment : url.fragment ≡ []
  pub path : url.path ≡ []
  pub address : Address
  pub numeric : p.address url.hostname ≡ some address
  pub loopback : address.is_loopback ≡ true
  pub zone : address.zone ≡ []
  pub allowed : cfg.allow_writes ≡ true
  pub requests : (pos 1 ≤ℤ cfg.requests) × (cfg.requests ≤ℤ pos 10000)
  pub concurrency : (pos 1 ≤ℤ cfg.concurrency) × (cfg.concurrency ≤ℤ pos 32)
  pub timeout : (pos 1000000000 ≤ℤ cfg.timeout) × (cfg.timeout ≤ℤ pos 300000000000)
  pub token :
      new_handler hash true cfg.token (true ∷ [])
      ≡ ok (record { token_hash = hash cfg.token; requests = λ index class. 0 })

local_lem :
    (a : Option Address)
    → is_local a ≡ true
    → (b : Address) × (a ≡ some b) × (b.is_loopback ≡ true) × (b.zone ≡ [])
local_lem none h = ground arith
local_lem (some b) h = (b, refl, ground arith, (same_iff b.zone []).0 (ground arith))

origin_lem :
    (o : Option Url)
    → is_origin o ≡ true
    → (u : Url) × (o ≡ some u)
      × (u.scheme ≡ codes "http")
      × (u.has_user ≡ false)
      × (u.raw_query ≡ [])
      × (u.fragment ≡ [])
      × (u.path ≡ [])
origin_lem none h = ground arith
origin_lem (some u) h = (
  u,
  refl,
  (same_iff u.scheme (codes "http")).0 (ground arith),
  ground arith,
  (same_iff u.raw_query []).0 (ground arith),
  (same_iff u.fragment []).0 (ground arith),
  (same_iff u.path []).0 (ground arith),
)

safe_bytes : (s : Bytes) → any_unsafe s ≡ false → any_byte is_refused s ≡ false
unfolding any_unsafe
safe_bytes [] h = refl
safe_bytes (b ∷ s) h = ground (arith, safe_bytes s)

refusals :
    (a b c d e f : Bool) (r₁ r₂ r₃ r₄ r₅ r₆ : Error)
    → (if not a
        then some r₁
        else if not b
        then some r₂
        else if not c
        then some r₃
        else if d
        then some r₄
        else if e
        then some r₅
        else if f
        then some r₆
        else none)
      ≡ none
    → (a ≡ true) × (b ≡ true) × (c ≡ true) × (d ≡ false) × (e ≡ false) × (f ≡ false)
refusals a b c d e f r₁ r₂ r₃ r₄ r₅ r₆ h = ground arith

-- The tests of `validate`, all passed.
passed :
    (p : Parsers) (cfg : Config)
    → validate p cfg ≡ none
    → (is_origin (p.url cfg.base_url) ≡ true)
      × (is_local (host_of p (p.url cfg.base_url)) ≡ true)
      × (cfg.allow_writes ≡ true)
      × (out_of_bounds cfg ≡ false)
      × ((ltb (length cfg.token) 32 || ltb 4096 (length cfg.token)) ≡ false)
      × (any_unsafe cfg.token ≡ false)
unfolding validate
passed p cfg h = refusals _ _ _ _ _ _ _ _ _ _ _ _ h

-- A configuration that `validate` accepts names a numeric loopback address over plain HTTP, confirms
-- the writes, stays within the bounds, and has a token that the service accepts at its start.
pub validate-IsSafe :
    (hash : Bytes → Bytes) (p : Parsers) (cfg : Config) → validate p cfg ≡ none → IsSafe hash p cfg
unfolding new_handler
validate-IsSafe hash p cfg h =
    let (origin, loop, allowed, bounds, long, seen) = passed p cfg h in
    let (url, parses, scheme, user, query, fragment, path) =
      origin_lem (p.url cfg.base_url) origin in
    let (address, numeric, loopback, zone) =
      local_lem (p.address url.hostname) (rw (parses) at loop) in
    record {
      url = url;
      parses = parses;
      scheme = scheme;
      user = user;
      query = query;
      fragment = fragment;
      path = path;
      address = address;
      numeric = numeric;
      loopback = loopback;
      zone = zone;
      allowed = allowed;
      requests = (ground arith, ground arith);
      concurrency = (ground arith, ground arith);
      timeout = (ground arith, ground arith);
      token = rw (long, safe_bytes cfg.token seen) refl;
    }
