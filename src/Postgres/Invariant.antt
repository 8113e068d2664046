-- ===== src/Postgres/Invariant.antt =====
-- What holds of the tables between transactions, beyond the constraints that the schema states: work
-- is never lost, and never charged twice.
pub mod Keeps
pub mod Batches
use usage_billing.Prelude.{ℕ, ◌≤◌, Bytes, Bool, true, not, ◌&&◌, List, length, All, ◌≡◌}
use usage_billing.Postgres.Table.{has, HasUniqueKeys}
use usage_billing.Postgres.Schema.{
  Db, UsageRow, PendingRow, usage_key, pending_key, ledger_key, usage_checks, pending_checks,
}

abbrev pub IsCheckedUsage : UsageRow → Type 0
IsCheckedUsage r = usage_checks r ≡ true

abbrev pub IsCheckedPending : PendingRow → Type 0
IsCheckedPending r = pending_checks r ≡ true

-- An accepted event waits in the queue exactly until it is posted, and the queue is bounded.
pub record IsConsistent (limit : ℕ) (db : Db) : Type 0 where
  pub usage_unique : HasUniqueKeys usage_key db.usage
  pub pending_unique : HasUniqueKeys pending_key db.pending
  pub ledger_unique : HasUniqueKeys ledger_key db.ledger
  pub usage_checked : All IsCheckedUsage db.usage
  pub pending_checked : All IsCheckedPending db.pending
  pub waits :
      (id : Bytes)
      → has pending_key id db.pending
        ≡ (has usage_key id db.usage && not (has ledger_key id db.ledger))
  pub posted : (id : Bytes) → has ledger_key id db.ledger ≡ true → has usage_key id db.usage ≡ true
  pub bounded : length db.pending ≤ limit
