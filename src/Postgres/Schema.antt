-- ===== src/Postgres/Schema.antt =====
-- The tables of migrations/000001_init, 000002_event_recovery and 000003_request_id, and their
-- CHECK constraints. Times are microseconds; `bigint` columns are integers.
use usage_billing.Prelude.{
  ℕ, Bytes, codes, same, Bool, not, ◌&&◌, ◌||◌, List, [], ◌∷◌, length, all, leb, ◌==◌,
}
use usage_billing.Prelude.Int.{ℤ, pos, ltb_ℤ, leb_ℤ, ◌==ℤ◌, ◌*ℤ◌}
use usage_billing.Billing.{id_byte}
use usage_billing.Postgres.Table.{any_of}

pub record UsageRow : Type 0 where
  pub event_id : Bytes
  pub customer_id : Bytes
  pub meter : Bytes
  pub units : ℤ
  pub unit_price_micros : ℤ
  pub amount_micros : ℤ
  pub currency : Bytes
  pub created_at : ℕ
  pub request_id : Bytes

pub record PendingRow : Type 0 where
  pub event_id : Bytes
  pub enqueued_at : ℕ
  pub processing_failures : ℕ
  pub failure_code : Bytes
  pub retry_generation : ℤ

pub record LedgerRow : Type 0 where
  pub event_id : Bytes
  pub processed_at : ℕ

pub record Db : Type 0 where
  pub usage : List UsageRow
  pub pending : List PendingRow
  pub ledger : List LedgerRow

abbrev pub usage_key : UsageRow → Bytes
usage_key r = r.event_id

abbrev pub pending_key : PendingRow → Bytes
pending_key r = r.event_id

abbrev pub ledger_key : LedgerRow → Bytes
ledger_key r = r.event_id

-- `~ '^[A-Za-z0-9_-]{1,64}$'`
abbrev pub id_pattern : Bytes → Bool
id_pattern id = leb 1 (length id) && leb (length id) 64 && all id_byte id

abbrev pub hex_byte : ℕ → Bool
hex_byte b = (leb b'0' b && leb b b'9') || (leb b'a' b && leb b b'f')

-- `request_id = '' OR request_id ~ '^[0-9a-f]{32}$'`
abbrev pub request_id_pattern : Bytes → Bool
request_id_pattern id = same id [] || (length id == 32 && all hex_byte id)

unfoldable pub usage_checks : UsageRow → Bool
usage_checks r =
    id_pattern r.event_id
    && id_pattern r.customer_id
    && same r.meter (codes "api_calls")
    && ltb_ℤ (pos 0) r.units
    && ltb_ℤ (pos 0) r.unit_price_micros
    && ltb_ℤ (pos 0) r.amount_micros
    && same r.currency (codes "USD")
    && r.amount_micros ==ℤ r.units *ℤ r.unit_price_micros
    && request_id_pattern r.request_id

-- The SQLSTATE codes that `failure_code` may hold.
abbrev pub integrity_codes : List Bytes
integrity_codes = codes "23502" ∷ codes "23503" ∷ codes "23505" ∷ codes "23514" ∷ codes "23P01" ∷ []

unfoldable pub pending_checks : PendingRow → Bool
pending_checks r =
    leb r.processing_failures 3
    && (same r.failure_code [] || any_of integrity_codes r.failure_code)
    && leb_ℤ (pos 0) r.retry_generation
    && ((r.processing_failures == 0 && same r.failure_code [])
        || (not (r.processing_failures == 0) && not (same r.failure_code [])))
