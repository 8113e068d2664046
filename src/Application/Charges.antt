-- ===== src/Application/Charges.antt =====
-- The service's prices and the constraints of the tables.
use usage_billing.Prelude.{
  ℕ, Bytes, codes, same_iff, true, false, ◌⊎◌, inl, inr, all, All, ◌≡◌, refl, ap, sym, ◌∙◌, [], ◌∷◌,
  arith,
}
use usage_billing.Prelude.Int.{ℤ, pos, leb_ℤ, ltb_ℤ, ==ℤ_iff, ◌*ℤ◌}
use usage_billing.RequestId.Laws.{IsHexDigit, IsRequestId}
use usage_billing.Billing.{Event, Input, id_byte}
use usage_billing.Billing.Identifiers.{IsIdByte, IsIdentifier, id_byte_iff}
use usage_billing.Billing.Pricing.{IsPriced, IsTraced, IsEntropy, accept-HandsOver}
use usage_billing.Billing.Service.{Service, request_id_for, priced, accept}
use usage_billing.RequestId.{Context}
use usage_billing.Postgres.{usage_row, usage_checks, id_pattern, request_id_pattern, hex_byte}

all-id_byte : (s : Bytes) → All IsIdByte s → all id_byte s ≡ true
all-id_byte [] h = refl
all-id_byte (b ∷ s) (p, h) = rw ((id_byte_iff b).1 p, all-id_byte s h) refl

id_pattern-IsIdentifier : (id : Bytes) → IsIdentifier id → id_pattern id ≡ true
id_pattern-IsIdentifier id (low, high, h) = rw (all-id_byte id h) ground arith

hex_byte-IsHexDigit : (b : ℕ) → IsHexDigit b → hex_byte b ≡ true
hex_byte-IsHexDigit b h = ground arith

all-hex_byte : (s : Bytes) → All IsHexDigit s → all hex_byte s ≡ true
all-hex_byte [] h = refl
all-hex_byte (b ∷ s) (p, h) = rw (hex_byte-IsHexDigit b p, all-hex_byte s h) refl

request_id_pattern-IsRequestId : (id : Bytes) → IsRequestId id → request_id_pattern id ≡ true
request_id_pattern-IsRequestId id (len, h) = rw (all-hex_byte id h) ground arith

-- An event with a proper price at a positive rate meets the constraints of `usage_events`.
pub IsPriced-usage_checks :
    (rate : ℤ) (e : Event) (now : ℕ)
    → ltb_ℤ (pos 0) rate ≡ true
    → IsPriced rate e
    → usage_checks (usage_row e now) ≡ true
unfolding usage_checks
IsPriced-usage_checks rate e now positive h =
    let meter = (same_iff e.input.meter (codes "api_calls")).1 h.meter in
    let units : ltb_ℤ (pos 0) e.input.units ≡ true = ground arith in
    let price = ap (ltb_ℤ (pos 0)) h.price ∙ positive in
    let amount : ltb_ℤ (pos 0) e.amount_micros ≡ true = ground arith in
    let currency = (same_iff e.currency (codes "USD")).1 h.currency in
    let exact =
      (==ℤ_iff e.amount_micros (e.input.units *ℤ e.unit_price_micros)).1
        (h.exact ∙ ap (λ r. e.input.units *ℤ r) (sym h.price)) in
    rw
      (
        id_pattern-IsIdentifier e.input.event_id h.event_id,
        id_pattern-IsIdentifier e.input.customer_id h.customer_id,
        request_id_pattern-IsRequestId e.request_id h.request_id,
        meter,
        units,
        price,
        amount,
        currency,
        exact,
      )
      refl

-- Whatever the input, the repository and the time, `Accept` at a positive rate leaves the repository
-- alone, or hands it the event that it prices, once; and the row of that event meets every CHECK of
-- `usage_events`, so that the schema never refuses what the service lets through. The context holds
-- an identifier of the package or none, and the random source delivers 16 bytes.
pub accept-usage_checks :
    {S : Type 0} (svc : Service S) (ctx : Context) (raw : Bytes) (input : Input) (s : S) (now : ℕ)
    → leb_ℤ svc.rate (pos 0) ≡ false
    → IsTraced ctx
    → IsEntropy raw
    → let event = priced svc.rate (request_id_for ctx raw) input in
      ((accept svc ctx raw input s).1 ≡ s)
      ⊎ (((accept svc ctx raw input s).1 ≡ (svc.repo.accept event s).1)
          × (usage_checks (usage_row event now) ≡ true))
accept-usage_checks svc ctx raw input s now positive traced random =
    elim (accept-HandsOver svc ctx raw input s positive traced random) [
      | inl same_state ↦ inl same_state
      | inr (is_priced, changed) ↦
          inr (changed, IsPriced-usage_checks svc.rate _ now (ground arith) is_priced)
    ]
