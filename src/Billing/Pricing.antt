-- ===== src/Billing/Pricing.antt =====
-- The price of an accepted event: `Service.Accept` over any repository.
use usage_billing.Prelude.{
  ℕ, ◌*◌, ◌/◌, ◌≤◌, ◌<◌, Bytes, codes, same, same_iff, same_refl, true, false, Bool-cases, none,
  Option-cases, [], length, All, ◌≡◌, ◌⊎◌, inl, inr, refl, arith,
}
use usage_billing.Prelude.Int.{
  ℤ, pos, negsuc, ◌*ℤ◌, ◌≤ℤ◌, leb_ℤ, ltb_ℤ, IsInt64, max_int64, mul64, div64, wrap64_of_IsInt64,
  *ℤ-pos,
}
use usage_billing.RequestId.{Context, from_context}
use usage_billing.RequestId.Laws.{IsRequestId, IsByte, new-IsRequestId}
use usage_billing.Billing.Types.{Input, Event}
use usage_billing.Billing.Service.{validate_id, Service, request_id_for, priced, accept}
use usage_billing.Billing.Identifiers.{IsIdentifier, validate_id_iff}

mul_le_max : (u r : ℕ) → 0 < r → u ≤ max_int64 / r → u * r ≤ max_int64
mul_le_max u r h k = grind arith

mul_pos : (u r : ℕ) → 0 < u → 0 < r → 1 ≤ u * r
mul_pos u r h k = grind arith

-- Within the bound that `Accept` tests, the product of two int64 does not wrap.
pub mul64_exact :
    (units rate : ℤ)
    → leb_ℤ units (pos 0) ≡ false
    → leb_ℤ rate (pos 0) ≡ false
    → ltb_ℤ (div64 (pos max_int64) rate) units ≡ false
    → (mul64 units rate ≡ units *ℤ rate) × IsInt64 (units *ℤ rate) × (pos 1 ≤ℤ units *ℤ rate)
unfolding mul64 div64
mul64_exact (pos u) (pos r) hu hr hd =
    let bound : u * r ≤ max_int64 = mul_le_max u r (ground arith) (ground arith) in
    let gain : 1 ≤ u * r = mul_pos u r (ground arith) (ground arith) in
    rw (*ℤ-pos u r, wrap64_of_IsInt64 (pos (u * r)) (omega arith))
      (refl, (omega arith, omega arith), omega arith)
mul64_exact (negsuc u) r hu hr hd = ground arith
mul64_exact (pos u) (negsuc r) hu hr hd = ground arith

-- What the schema asks of a row, and the docs of a charge.
pub record IsPriced (rate : ℤ) (e : Event) : Type 0 where
  pub event_id : IsIdentifier e.input.event_id
  pub customer_id : IsIdentifier e.input.customer_id
  pub meter : e.input.meter ≡ codes "api_calls"
  pub units : pos 1 ≤ℤ e.input.units
  pub price : e.unit_price_micros ≡ rate
  pub exact : e.amount_micros ≡ e.input.units *ℤ rate
  pub amount : pos 1 ≤ℤ e.amount_micros
  pub in_range : IsInt64 e.amount_micros
  pub currency : e.currency ≡ codes "USD"
  pub request_id : IsRequestId e.request_id

-- A context never holds anything but an identifier of the package, or nothing.
abbrev pub IsTraced : Context → Type 0
IsTraced ctx = (from_context ctx ≡ []) ⊎ IsRequestId (from_context ctx)

-- Sixteen bytes, as `rand.Read` fills them.
abbrev pub IsEntropy : Bytes → Type 0
IsEntropy raw = All IsByte raw × (length raw ≡ 16)

pub request_id_for-IsRequestId :
    (ctx : Context) (raw : Bytes)
    → IsTraced ctx
    → IsEntropy raw
    → IsRequestId (request_id_for ctx raw)
unfolding request_id_for
request_id_for-IsRequestId ctx raw (inl none_given) h =
    rw (none_given, same_refl []) (new-IsRequestId raw h.0 h.1)
request_id_for-IsRequestId ctx raw (inr given) h = elim (Bool-cases (same (from_context ctx) [])) [
  | inl none_given ↦ rw none_given (new-IsRequestId raw h.0 h.1)
  | inr some_given ↦ rw some_given given
]

pub priced-IsPriced :
    (rate : ℤ) (id : Bytes) (input : Input)
    → leb_ℤ rate (pos 0) ≡ false
    → IsRequestId id
    → validate_id input.event_id ≡ none
    → validate_id input.customer_id ≡ none
    → same input.meter (codes "api_calls") ≡ true
    → leb_ℤ input.units (pos 0) ≡ false
    → ltb_ℤ (div64 (pos max_int64) rate) input.units ≡ false
    → IsPriced rate (priced rate id input)
unfolding priced
priced-IsPriced rate id input hr hid he hc hm hu hd =
    let (exact, fits, gain) = mul64_exact input.units rate hu hr hd in
    record {
      event_id = (validate_id_iff input.event_id).0 he;
      customer_id = (validate_id_iff input.customer_id).0 hc;
      meter = (same_iff input.meter (codes "api_calls")).0 hm;
      units = ground arith;
      price = refl;
      exact = exact;
      amount = rw exact gain;
      in_range = rw exact fits;
      currency = refl;
      request_id = hid;
    }

-- `Accept` leaves the state alone, or hands the repository the event that it prices, once.
abbrev pub HandsOver {ℓ} :
    {S : Type 0} {A : Type ℓ} → Service S → Context → Bytes → Input → S → A × S → Type 0
HandsOver svc ctx raw input s (_, s') =
    (s' ≡ s)
    ⊎ (IsPriced svc.rate (priced svc.rate (request_id_for ctx raw) input)
        × (s' ≡ (svc.repo.accept (priced svc.rate (request_id_for ctx raw) input) s).1))

pub accept-HandsOver :
    {S : Type 0} (svc : Service S) (ctx : Context) (raw : Bytes) (input : Input) (s : S)
    → leb_ℤ svc.rate (pos 0) ≡ false
    → IsTraced ctx
    → IsEntropy raw
    → HandsOver svc ctx raw input s (accept svc ctx raw input s)
unfolding accept
accept-HandsOver svc ctx raw input s hr ht he = elim (Option-cases (validate_id input.event_id)) [
  | inr (bad, e) ↦ rw e (inl refl)
  | inl good_event ↦ elim (Option-cases (validate_id input.customer_id)) [
    | inr (bad, e) ↦ rw (good_event, e) (inl refl)
    | inl good_customer ↦ elim (Bool-cases (same input.meter (codes "api_calls"))) [
      | inr meter ↦ rw (good_event, good_customer, meter) (inl refl)
      | inl meter ↦ elim (Bool-cases (leb_ℤ input.units (pos 0))) [
        | inl units ↦ rw (good_event, good_customer, meter, units) (inl refl)
        | inr units ↦ elim (Bool-cases (ltb_ℤ (div64 (pos max_int64) svc.rate) input.units)) [
          | inl large ↦ rw (good_event, good_customer, meter, units, large) (inl refl)
          | inr fits ↦
              rw (good_event, good_customer, meter, units, fits)
                (inr (
                  priced-IsPriced svc.rate (request_id_for ctx raw) input hr
                      (request_id_for-IsRequestId ctx raw ht he) good_event good_customer meter
                      units fits,
                  refl,
                ))
        ]
      ]
    ]
  ]
]

-- What `Accept` has done with the repository's state: nothing, or one admission of a priced event.
abbrev pub AdmitsPriced {ℓ} : {S : Type 0} {A : Type ℓ} → Service S → Input → S → A × S → Type 0
AdmitsPriced svc input s (_, s') =
    (s' ≡ s)
    ⊎ ((e : Event) × IsPriced svc.rate e × (e.input ≡ input) × (s' ≡ (svc.repo.accept e s).1))

-- Whatever the input and the repository, `Accept` leaves the repository alone or hands it one
-- event: with valid identifiers, the configured price and the exact product as its amount, which is
-- positive and fits an int64, in USD and with a request identifier of 32 hexadecimal digits.
pub accept-AdmitsPriced :
    {S : Type 0} (svc : Service S) (ctx : Context) (raw : Bytes) (input : Input) (s : S)
    → leb_ℤ svc.rate (pos 0) ≡ false
    → IsTraced ctx
    → IsEntropy raw
    → AdmitsPriced svc input s (accept svc ctx raw input s)
unfolding priced
accept-AdmitsPriced svc ctx raw input s hr ht he =
    elim (accept-HandsOver svc ctx raw input s hr ht he) [
      | inl same_state ↦ inl same_state
      | inr (is_priced, changed) ↦
          inr (priced svc.rate (request_id_for ctx raw) input, is_priced, refl, changed)
    ]
