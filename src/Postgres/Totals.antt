-- ===== src/Postgres/Totals.antt =====
-- internal/postgres/store.go: the two aggregate queries, `Summary` and `QueueStats`.
pub mod Partition
use usage_billing.Prelude.{
  ℕ, ◌+◌, ◌-◌, Bytes, codes, same, Bool, true, false, ◌&&◌, Option, none, some, List, [], ◌∷◌, ltb,
  ◌==◌, min, if◌then◌else◌,
}
use usage_billing.Prelude.Int.{ℤ, pos, ◌+ℤ◌}
use usage_billing.Errors.{wrap, Result, ok, err}
use usage_billing.Strconv.{format_int}
use usage_billing.Billing.{Summary}
use usage_billing.Postgres.Table.{find, has}
use usage_billing.Postgres.Schema.{UsageRow, PendingRow, Db, pending_key, ledger_key}
use usage_billing.Postgres.Session.{Server, fault_error}

-- COUNT(…) FILTER (WHERE …)
unfoldable pub count_where : {A : Type 0} → (A → Bool) → List A → ℕ
count_where p [] = 0
count_where p (x ∷ xs) = let rest = count_where p xs in if p x then 1 + rest else rest

-- COALESCE(SUM(…) FILTER (WHERE …), 0), a numeric, which has no bound
unfoldable pub sum_where : {A : Type 0} → (A → Bool) → (A → ℤ) → List A → ℤ
sum_where p f [] = pos 0
sum_where p f (x ∷ xs) = let rest = sum_where p f xs in if p x then f x +ℤ rest else rest

abbrev pub below_three : PendingRow → Bool
below_three p = ltb p.processing_failures 3

abbrev pub at_three : PendingRow → Bool
at_three p = p.processing_failures == 3

abbrev pub row_with : (PendingRow → Bool) → Option PendingRow → Bool
row_with test none = false
row_with test (some p) = test p

-- The columns of the joined row of an event: `l.event_id IS NOT NULL`, and `p.processing_failures`
-- under a test.
abbrev pub is_posted : Db → UsageRow → Bool
is_posted db u = has ledger_key u.event_id db.ledger

abbrev pub is_queued : (PendingRow → Bool) → Db → UsageRow → Bool
is_queued test db u = row_with test (find pending_key u.event_id db.pending)

-- WHERE u.customer_id = $1
abbrev pub is_of : Bytes → UsageRow → Bool
is_of customer u = same u.customer_id customer

abbrev pub totals_of : Bytes → Db → Summary
totals_of customer db = record {
  customer_id = customer;
  currency = codes "USD";
  units = format_int (sum_where (λ u. is_of customer u && is_posted db u) (λ u. u.units) db.usage);
  amount_micros =
      format_int
        (sum_where (λ u. is_of customer u && is_posted db u) (λ u. u.amount_micros) db.usage);
  pending = count_where (λ u. is_of customer u && is_queued below_three db u) db.usage;
  processed = count_where (λ u. is_of customer u && is_posted db u) db.usage;
  failed = count_where (λ u. is_of customer u && is_queued at_three db u) db.usage;
}

-- `Summary`
unfoldable pub summarize : Server → Bytes → Db → Result Summary
summarize srv customer db = elim (srv.fault 0) [
  | some f ↦ err (wrap "summarize usage" (fault_error f))
  | none ↦ ok (totals_of customer db)
]

-- MIN(enqueued_at) FILTER (WHERE processing_failures < 3)
abbrev earlier : ℕ → Option ℕ → Option ℕ
earlier t none = some t
earlier t (some s) = some (min t s)

unfoldable pub oldest_due : List PendingRow → Option ℕ
oldest_due [] = none
oldest_due (p ∷ rows) =
    let rest = oldest_due rows in if below_three p then earlier p.enqueued_at rest else rest

-- COALESCE(statement_timestamp() - …, 0), in microseconds; the code makes a negative age 0, and so
-- does the subtraction.
abbrev age : ℕ → Option ℕ → ℕ
age now none = 0
age now (some t) = now - t

-- `QueueStats`: pending, failed, and the age of the oldest pending row.
unfoldable pub queue_stats : Server → Db → Result (ℕ × ℕ × ℕ)
queue_stats srv db = elim (srv.fault 0) [
  | some f ↦ err (wrap "read pending queue metrics" (fault_error f))
  | none ↦ ok (
    count_where below_three db.pending,
    count_where at_three db.pending,
    age (srv.clock 0) (oldest_due db.pending),
  )
]
