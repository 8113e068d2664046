-- ===== src/Loadtest.antt =====
-- cmd/loadtest/main.go: the configuration, and the calls that the load test makes of the service.
-- `url.Parse`, `netip.ParseAddr`, the HTTP transport and encoding/json are arguments; the transport
-- has a state, that of the service at its other end.
pub mod Percentile
pub mod Clients
pub mod Inputs
pub mod Safety
pub mod Run
mod Tests
use usage_billing.Prelude.{
  ℕ, String, Bytes, codes, same, Bool, true, false, not, ◌&&◌, ◌||◌, Option, none, some, List, [],
  ◌∷◌, ◌++◌, length, take, ltb, leb, ◌==◌, if◌then◌else◌,
}
use usage_billing.Prelude.Int.{ℤ, pos, ltb_ℤ, ◌==ℤ◌}
use usage_billing.Errors.{Error, message, Result, ok, err}
use usage_billing.Billing.{Input, Event, same_input}

-- `config`; the timeout is in nanoseconds.
pub record Config : Type 0 where
  pub base_url : Bytes
  pub token : Bytes
  pub requests : ℤ
  pub concurrency : ℤ
  pub timeout : ℤ
  pub allow_writes : Bool

-- `*url.URL`, as far as `validate` looks, and `netip.Addr`
pub record Url : Type 0 where
  pub scheme : Bytes
  pub has_user : Bool
  pub raw_query : Bytes
  pub fragment : Bytes
  pub path : Bytes
  pub opaque : Bytes
  pub hostname : Bytes

pub record Address : Type 0 where
  pub is_loopback : Bool
  pub zone : Bytes

-- The parsers; `none` is an error.
pub record Parsers : Type 0 where
  pub url : Bytes → Option Url
  pub address : Bytes → Option Address

abbrev pub is_origin : Option Url → Bool
is_origin none = false
is_origin (some u) =
    same u.scheme (codes "http")
    && not u.has_user
    && same u.raw_query []
    && same u.fragment []
    && same u.path []
    && same u.opaque []

abbrev pub is_local : Option Address → Bool
is_local none = false
is_local (some a) = a.is_loopback && same a.zone []

abbrev pub host_of : Parsers → Option Url → Option Address
host_of p none = none
host_of p (some u) = p.address u.hostname

-- Whether the byte ends the loop over the token.
abbrev pub is_unsafe : ℕ → Bool
is_unsafe b = leb b b' ' || leb 127 b

unfoldable pub any_unsafe : Bytes → Bool
any_unsafe [] = false
any_unsafe (b ∷ s) = is_unsafe b || any_unsafe s

abbrev pub out_of_bounds : Config → Bool
out_of_bounds cfg =
    ltb_ℤ cfg.requests (pos 1)
    || ltb_ℤ (pos 10000) cfg.requests
    || ltb_ℤ cfg.concurrency (pos 1)
    || ltb_ℤ (pos 32) cfg.concurrency
    || ltb_ℤ cfg.timeout (pos 1000000000)
    || ltb_ℤ (pos 300000000000) cfg.timeout

unfoldable pub validate : Parsers → Config → Option Error
unfolding any_unsafe
validate p cfg =
    if not (is_origin (p.url cfg.base_url))
    then some (
        message
          "URL must be a plain HTTP loopback origin without credentials, path, query, or fragment")
    else if not (is_local (host_of p (p.url cfg.base_url)))
    then some (message "only numeric loopback addresses are permitted")
    else if not cfg.allow_writes
    then some (message "-allow-demo-writes is required; use only a disposable demo database")
    else if out_of_bounds cfg
    then some (message "request count, concurrency, or timeout outside safe bounds")
    else if ltb (length cfg.token) 32 || ltb 4096 (length cfg.token)
    then some (message "BILLING_API_TOKEN must contain 32..4096 printable ASCII bytes")
    else if any_unsafe cfg.token
    then some (message "BILLING_API_TOKEN must contain printable ASCII without whitespace")
    else none

-- A request that goes out, with its `Authorization` and `Content-Type`, and the response that comes
-- back: `body` is `none` where reading it fails, and closing it may fail.
pub record Call : Type 0 where
  pub method : Bytes
  pub url : Bytes
  pub sent : Bytes
  pub authorization : Bytes
  pub content_type : Bytes

pub record Reply : Type 0 where
  pub status : ℕ
  pub body : Option Bytes
  pub closes : Bool

-- `billing.Summary` as it is decoded: its counts are any int64.
pub record Observed : Type 0 where
  pub customer_id : Bytes
  pub currency : Bytes
  pub units : Bytes
  pub amount_micros : Bytes
  pub pending : ℤ
  pub processed : ℤ

-- `http.NewRequestWithContext` and `client.Do`, which fail or not, and encoding/json in both
-- directions, where `none` is an error.
pub record Client (S : Type 0) : Type 0 where
  pub builds : Call → Bool
  pub send : Call → S → Option Reply × S
  pub encode : Input → Option Bytes
  pub decode_event : Bytes → Option Event
  pub decode_summary : Bytes → Option Observed

abbrev pub decoded : {A : Type 0} → Option A → Result A
decoded none = err (message "invalid JSON response")
decoded (some a) = ok a

-- The deferred `Close`, whose error counts where there is no other.
abbrev pub closed : {A : Type 0} → Bool → Result A → Result A
closed true r = r
closed false (err e) = err e
closed false (ok a) = err (message "cannot close HTTP response")

-- The body comes through `io.LimitReader(response.Body, 16*1024+1)`.
abbrev pub read_reply : {A : Type 0} → (Bytes → Option A) → ℕ → ℕ → Option Bytes → Result A
read_reply decode want status none = err (message "unexpected HTTP response")
read_reply decode want status (some s) =
    if ltb 16384 (length (take 16385 s)) || not (status == want)
    then err (message "unexpected HTTP response")
    else decoded (decode (take 16385 s))

abbrev pub answered : {A : Type 0} → (Bytes → Option A) → ℕ → Option Reply → Result A
answered decode want none = err (message "HTTP request failed")
answered decode want (some r) = closed r.closes (read_reply decode want r.status r.body)

-- The comparison of the event that comes back; `none` is no error.
abbrev pub expected : Input → Result Event → Option Error
expected input (err e) = some e
expected input (ok event) =
    if not (same_input event.input input)
      || not (same event.currency (codes "USD"))
      || not (event.unit_price_micros ==ℤ pos 1000)
      || not (event.amount_micros ==ℤ pos 1000)
    then some (message "unexpected event response; use the default demo price")
    else none

abbrev pub checked : Bytes → Result Observed → Result Observed
checked customer (err e) = err e
checked customer (ok value) =
    if not (same value.customer_id customer)
      || not (same value.currency (codes "USD"))
      || ltb_ℤ value.pending (pos 0)
      || ltb_ℤ value.processed (pos 0)
    then err (message "invalid summary")
    else ok value

module _ {S : Type 0} (c : Client S) (cfg : Config) where
  abbrev pub replied : {A : Type 0} → (Bytes → Option A) → ℕ → Option Reply × S → Result A × S
  replied decode want (reply, s) = (answered decode want reply, s)

  abbrev pub call_of : Bytes → Bytes → Bytes → Call
  call_of method path sent = record {
    method = method;
    url = cfg.base_url ++ path;
    sent = sent;
    authorization = codes "Bearer " ++ cfg.token;
    content_type = codes "application/json";
  }

  unfoldable pub request :
      {A : Type 0} → (Bytes → Option A) → Bytes → Bytes → Bytes → ℕ → S → Result A × S
  request decode method path sent want s =
      if not (c.builds (call_of method path sent))
      then (err (message "cannot build request"), s)
      else replied decode want (c.send (call_of method path sent) s)

  abbrev pub event_checked : Input → Result Event × S → Option Error × S
  event_checked input (r, s) = (expected input r, s)

  abbrev pub posted : Input → Option Bytes → S → Option Error × S
  posted input none s = (some (message "cannot encode synthetic event"), s)
  posted input (some sent) s =
      event_checked input (request c.decode_event (codes "POST") (codes "/v1/events") sent 202 s)

  unfoldable pub accept : Input → S → Option Error × S
  unfolding request
  accept input s = posted input (c.encode input) s

  abbrev pub summary_checked : Bytes → Result Observed × S → Result Observed × S
  summary_checked customer (r, s) = (checked customer r, s)

  unfoldable pub summary : Bytes → S → Result Observed × S
  unfolding request
  summary customer s = summary_checked customer (
      request c.decode_summary (codes "GET")
        (codes "/v1/customers/" ++ customer ++ codes "/summary") [] 200 s)
