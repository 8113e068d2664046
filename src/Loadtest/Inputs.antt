-- ===== src/Loadtest/Inputs.antt =====
-- cmd/loadtest/main.go: what its clients send is accepted by the service at the demo's price, and
-- what the service answers is what `accept` expects.
use usage_billing.Prelude.{
  ℕ, zero, suc, ◌+◌, ◌*◌, ◌/◌, ◌%◌, ◌≤◌, ◌<◌, Bytes, codes, Bool, true, none, [], ◌∷◌, ◌++◌, length,
  length-append, All, All-append, ltb, same, same_refl, Bool-cases, inl, inr, ◌≡◌, refl, arith,
}
use usage_billing.Prelude.Int.{pos, div64, mul64, wrap64, ◌*ℤ◌}
use usage_billing.Errors.{ok}
use usage_billing.Strconv.{emit_digits, format_uint}
use usage_billing.RequestId.{Context, encode}
use usage_billing.RequestId.Laws.{IsHexDigit, IsByte, encode-IsHexDigit, length-encode}
use usage_billing.Billing.{Event, priced, same_input}
use usage_billing.Billing.Service
use usage_billing.Billing.Pricing.{IsEntropy, IsTraced}
use usage_billing.Billing.Identifiers.{IsIdByte, IsIdentifier, validate_id_iff}
use usage_billing.Application.Accepting.{IsChargeable, IsOpen, service-created}
use usage_billing.Application.{service_over}
use usage_billing.Postgres.{Db}
use usage_billing.Postgres.Store.{Store}
use usage_billing.Postgres.System.Progress.{healthy}
use usage_billing.Loadtest.{expected}
use usage_billing.Loadtest.Clients.{input_of}

abbrev tens : ℕ → ℕ
tens zero = 1
tens (suc k) = 10 * tens k

emit-length :
    (k fuel n : ℕ) (out : Bytes)
    → n < tens (suc k)
    → length (emit_digits fuel n out) ≤ suc k + length out
unfolding emit_digits
emit-length k zero n out h = omega arith
emit-length zero (suc fuel) n out h = ground arith
emit-length (suc k) (suc fuel) n out h =
    ground (arith, emit-length k fuel (n / 10) ((b'0' + n % 10) ∷ out))

emit-IsIdByte :
    (fuel n : ℕ) (out : Bytes) → All IsIdByte out → All IsIdByte (emit_digits fuel n out)
unfolding emit_digits
emit-IsIdByte zero n out h = h
emit-IsIdByte (suc fuel) n out h = elim (Bool-cases (ltb n 10)) [
  | inl y ↦ rw (y) (inr (inr (inl (omega arith, ground arith))), h)
  | inr y ↦ rw (y) (emit-IsIdByte fuel (n / 10) _ (inr (inr (inl (omega arith, ground arith))), h))
]

hex-IsIdByte : (s : Bytes) → All IsHexDigit s → All IsIdByte s
hex-IsIdByte [] h = tt
hex-IsIdByte (c ∷ s) (p, h) = (ground (arith, p), hex-IsIdByte s h)

abbrev pub prefix_of : Bytes → Bytes
prefix_of random = codes "load_" ++ encode random

prefix-IsIdByte : (random : Bytes) → All IsByte random → All IsIdByte (prefix_of random)
prefix-IsIdByte random h =
    All-append IsIdByte (codes "load_") (encode random) (ground arith)
      (hex-IsIdByte _ (encode-IsHexDigit random h))

length-prefix : (random : Bytes) → IsEntropy random → length (prefix_of random) ≡ 37
length-prefix random h =
    omega (arith, length-append (codes "load_") (encode random), length-encode random, h.1)

event_id-IsIdentifier :
    (random : Bytes) (i : ℕ)
    → IsEntropy random
    → i < 10000
    → IsIdentifier (prefix_of random ++ b'_' ∷ format_uint i)
unfolding format_uint
event_id-IsIdentifier random i h low =
    let size = length-append (prefix_of random) (b'_' ∷ format_uint i) in
    let digits = emit-length 3 (suc i) i [] low in
    (
      omega (arith, size, length-prefix random h),
      omega (arith, size, length-prefix random h, digits),
      All-append IsIdByte (prefix_of random) (b'_' ∷ format_uint i) (prefix-IsIdByte random h.0)
          (ground arith, emit-IsIdByte (suc i) i [] tt),
    )

input_of-IsChargeable :
    (random : Bytes) (i : ℕ)
    → IsEntropy random
    → i < 10000
    → IsChargeable (pos 1000) (input_of (prefix_of random) i)
unfolding div64
input_of-IsChargeable random i h low = record {
  positive = refl;
  event_id = (validate_id_iff _).1 (event_id-IsIdentifier random i h low);
  customer_id = (validate_id_iff _).1 (
    omega (arith, length-prefix random h),
    omega (arith, length-prefix random h),
    prefix-IsIdByte random h.0,
  );
  meter = same_refl (codes "api_calls");
  units = refl;
  fits = refl;
}

-- A service at 1000 micros, with a server on which nothing fails and consistent tables that have room
-- and do not have the event yet, accepts each event of a load test, and its answer is the one that
-- `accept` of the load test expects.
pub accept-expected :
    (clock : ℕ → ℕ) (locked : Bytes → Bool) (before : Bytes → Bytes → Bool) (store : Store)
    (ctx : Context) (random raw : Bytes) (i : ℕ) (db : Db)
    → IsEntropy random
    → IsTraced ctx
    → IsEntropy raw
    → i < 10000
    → IsOpen store (input_of (prefix_of random) i).event_id db
    → let input = input_of (prefix_of random) i in
      let svc = service_over (healthy clock locked before) store (pos 1000) in
      (event : Event) × (db' : Db) × (Service.accept svc ctx raw input db ≡ (ok (event, true), db'))
      × (expected input (ok event) ≡ none)
unfolding priced same_input same mul64 wrap64 ◌*ℤ◌
accept-expected clock locked before store ctx random raw i db h t e low opened =
    let created =
      service-created clock locked before store (pos 1000) ctx raw (input_of (prefix_of random) i)
        db t e (input_of-IsChargeable random i h low) opened in
    (
      _,
      _,
      created,
      rw (same_refl (prefix_of random ++ b'_' ∷ format_uint i), same_refl (prefix_of random)) refl,
    )
