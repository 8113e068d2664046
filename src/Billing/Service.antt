-- ===== src/Billing/Service.antt =====
-- internal/billing/service.go
use usage_billing.Prelude.{
  ℕ, String, Bytes, codes, same, Bool, false, not, ◌&&◌, ◌||◌, Option, none, some, [], ◌∷◌, length,
  ltb, leb, ◌==◌, if◌then◌else◌,
}
use usage_billing.Prelude.Int.{ℤ, pos, leb_ℤ, ltb_ℤ, ◌==ℤ◌, max_int64, mul64, div64}
use usage_billing.Errors.{
  Error, sentinel, message, wrap, invalid, conflict, not_found, is, Result, ok, err,
}
use usage_billing.RequestId.{Context, from_context, new}
use usage_billing.Billing.Types.{Input, Event, Summary, Repository, same_input}

-- `if err != nil { return f(err) }` before the rest of a body
abbrev pub unless {ℓ} : {A : Type ℓ} → Option Error → (Error → A) → A → A
unless none f rest = rest
unless (some e) f rest = f e

-- `return fmt.Errorf("text: %w", err)` where a call failed
abbrev pub wrapping {ℓ} : {A : Type ℓ} → String → Result A → Result A
wrapping text (ok a) = ok a
wrapping text (err e) = err (wrap text e)

abbrev pub id_byte : ℕ → Bool
id_byte b =
    let letter = (leb b'a' b && leb b b'z') || (leb b'A' b && leb b b'Z') in
    let digit = leb b'0' b && leb b b'9' in
    let separator = b == b'_' || b == b'-' in letter || digit || separator

-- the loop of `ValidateID`
unfoldable pub validate_bytes : Bytes → Option Error
validate_bytes [] = none
validate_bytes (b ∷ s) = if not (id_byte b) then some (sentinel invalid) else validate_bytes s

unfoldable pub validate_id : Bytes → Option Error
unfolding validate_bytes
validate_id id =
    if length id == 0 || ltb 64 (length id) then some (sentinel invalid) else validate_bytes id

pub record Service (S : Type 0) : Type 0 where
  pub repo : Repository S
  pub rate : ℤ

-- `New`; a nil repository is `none`
unfoldable pub new_service : {S : Type 0} → Option (Repository S) → ℤ → Result (Service S)
new_service none rate = err (message "billing repository is required")
new_service (some repo) rate =
    if leb_ℤ rate (pos 0)
    then err (message "billing rate must be positive")
    else ok (record { repo = repo; rate = rate })

-- An identical retry of an event whose amount would overflow at today's price.
unfoldable pub replay : Input → Result Event → Result (Event × Bool)
replay input (ok existing) =
    if not (same_input existing.input input) then err (sentinel conflict) else ok (existing, false)
replay input (err e) =
    if is e not_found then err (sentinel invalid) else err (wrap "find original usage" e)

-- `requestid.FromContext`, or a new identifier from the random bytes `raw`
unfoldable pub request_id_for : Context → Bytes → Bytes
request_id_for ctx raw = let id = from_context ctx in if same id [] then new raw else id

-- The event that `Accept` hands to the repository. What it leaves out has Go's zero value.
unfoldable pub priced : ℤ → Bytes → Input → Event
priced rate id input = record {
  input = input;
  request_id = id;
  unit_price_micros = rate;
  amount_micros = mul64 input.units rate;
  currency = codes "USD";
  processed = false;
  created_at = 0;
  failed = false;
  processing_failures = 0;
  failure_code = [];
  retry_generation = pos 0;
}

module _ {S : Type 0} (svc : Service S) where
  unfoldable pub accept : Context → Bytes → Input → S → Result (Event × Bool) × S
  unfolding replay
  accept ctx raw input s =
      unless (validate_id input.event_id) (λ e. (err (wrap "event identifier" e), s))
        (unless (validate_id input.customer_id) (λ e. (err (wrap "customer identifier" e), s))
          (if not (same input.meter (codes "api_calls")) || leb_ℤ input.units (pos 0)
            then (err (sentinel invalid), s)
            else if ltb_ℤ (div64 (pos max_int64) svc.rate) input.units
            then (replay input (svc.repo.get input.event_id s), s)
            else let (r, s') = svc.repo.accept (priced svc.rate (request_id_for ctx raw) input) s in
              (wrapping "accept usage" r, s')))

  unfoldable pub get : Bytes → S → Result Event
  get id s = unless (validate_id id) (λ e. err e) (wrapping "get usage" (svc.repo.get id s))

  unfoldable pub summary : Bytes → S → Result Summary
  summary customer s =
      unless (validate_id customer) (λ e. err e)
        (wrapping "get customer summary" (svc.repo.summary customer s))

  unfoldable pub retry : Bytes → ℤ → S → Result (Event × Bool) × S
  retry id generation s =
      unless (validate_id id) (λ e. (err e, s))
        (if ltb_ℤ generation (pos 0) || generation ==ℤ pos max_int64
          then (err (sentinel invalid), s)
          else let (r, s') = svc.repo.retry id generation s in (wrapping "retry usage" r, s'))
