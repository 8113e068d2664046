-- ===== src/Billing/Types.antt =====
-- internal/billing/types.go. Times are counted in microseconds; int64 fields are integers.
use usage_billing.Prelude.{ℕ, Bytes, Bool, ◌&&◌}
use usage_billing.Prelude.{same}
use usage_billing.Prelude.Int.{ℤ, ◌==ℤ◌}
use usage_billing.Errors.{Result}

pub record Input : Type 0 where
  pub event_id : Bytes
  pub customer_id : Bytes
  pub meter : Bytes
  pub units : ℤ

pub record Event : Type 0 where
  pub input : Input
  pub request_id : Bytes
  pub unit_price_micros : ℤ
  pub amount_micros : ℤ
  pub currency : Bytes
  pub processed : Bool
  pub created_at : ℕ
  pub failed : Bool
  pub processing_failures : ℕ
  pub failure_code : Bytes
  pub retry_generation : ℤ

pub record ProcessingEvent : Type 0 where
  pub request_id : Bytes
  pub outcome : Bytes
  pub failure_code : Bytes
  pub processing_failures : ℕ
  pub retry_generation : ℤ

pub record Summary : Type 0 where
  pub customer_id : Bytes
  pub currency : Bytes
  pub units : Bytes
  pub amount_micros : Bytes
  pub pending : ℕ
  pub processed : ℕ
  pub failed : ℕ

-- `==` on `Input`
unfoldable pub same_input : Input → Input → Bool
same_input a b =
    same a.event_id b.event_id
    && same a.customer_id b.customer_id
    && same a.meter b.meter
    && a.units ==ℤ b.units

-- The interface `Repository`, over the state that its implementation keeps.
pub record Repository (S : Type 0) : Type 0 where
  pub accept : Event → S → Result (Event × Bool) × S
  pub get : Bytes → S → Result Event
  pub summary : Bytes → S → Result Summary
  pub retry : Bytes → ℤ → S → Result (Event × Bool) × S
