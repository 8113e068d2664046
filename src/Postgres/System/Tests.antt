-- ===== src/Postgres/System/Tests.antt =====
-- Two events that wait, and a batch for each.
use usage_billing.Prelude.{
  ℕ, Bytes, codes, same, [], ◌∷◌, false, true, some, none, ◌==◌, if◌then◌else◌, ◌⊎◌, ◌≡◌, refl,
  arith,
}
use usage_billing.Prelude.Int.{pos, ◌*ℤ◌}
use usage_billing.Errors.{message, wrap, as_pg_error}
use usage_billing.Billing.{validate_id, validate_bytes}
use usage_billing.Postgres.Table.{has, find}
use usage_billing.Postgres.Session.{
  Server, broken, transaction, begun, finish, with_rollback, bound, relabel, send, answer,
  savepoint,
}
use usage_billing.Postgres.Session.Inversion.{LosesCommit}
use usage_billing.Postgres.Statements.{select_claim, order_due, insert_due, eligible, join_usage}
use usage_billing.Postgres.Store.{retry, retry_tx}
use usage_billing.Postgres.System.Atomicity.{retry-atomic, batch-atomic}
use usage_billing.Postgres.Schema.{Db, UsageRow, PendingRow, usage_checks, pending_checks}
use usage_billing.Postgres.Totals.{count_where, below_three}
use usage_billing.Postgres.Batch.{
  process_batch_with_results, batch_tx, take_rows, post_batch, settle_batch, isolate,
  integrity_code,
}
use usage_billing.Postgres.Invariant.{IsConsistent}
use usage_billing.Postgres.System.Progress.{healthy}
use usage_billing.Postgres.System.Draining.{Drains, batch-Drains}
use usage_billing.Postgres.System.Emptying.{batches, batches_empty}

abbrev usage_named : Bytes → UsageRow
usage_named id = record {
  event_id = id;
  customer_id = codes "c1";
  meter = codes "api_calls";
  units = pos 7;
  unit_price_micros = pos 100;
  amount_micros = pos 700;
  currency = codes "USD";
  request_id = codes "0123456789abcdef0123456789abcdef";
  created_at = 5;
}

abbrev waiting : Bytes → PendingRow
waiting id = record {
  event_id = id;
  enqueued_at = 6;
  processing_failures = 0;
  failure_code = [];
  retry_generation = pos 0;
}

abbrev two : Db
two = record {
  usage = usage_named (codes "e1") ∷ usage_named (codes "e2") ∷ [];
  pending = waiting (codes "e1") ∷ waiting (codes "e2") ∷ [];
  ledger = [];
}

two-IsConsistent : IsConsistent 2 two
unfolding has same usage_checks pending_checks ◌*ℤ◌
two-IsConsistent = record {
  usage_unique = (refl, (refl, tt));
  pending_unique = (refl, (refl, tt));
  ledger_unique = tt;
  usage_checked = (refl, (refl, tt));
  pending_checked = (refl, (refl, tt));
  waits = λ id. ground arith;
  posted = λ id h. absurd (ground arith);
  bounded = omega arith;
}

batch-Drains_example :
    Drains 1 two
      (process_batch_with_results (healthy (λ n. n) (λ id. false) (λ a b. true)) (pos 1) two)
batch-Drains_example =
    batch-Drains (λ n. n) (λ a b. true) 2 1 two two-IsConsistent (omega arith) (omega arith)

batches_empty_example :
    count_where below_three (batches (λ a b. true) (λ n k. k) 1 2 two).pending ≡ 0
unfolding count_where
batches_empty_example =
    batches_empty (λ a b. true) (λ n k. k) 1 2 2 two two-IsConsistent (omega arith) (omega arith)
      (omega arith)

-- A server that loses the connection at one statement.
abbrev breaks_at : ℕ → Server
breaks_at k = record (healthy (λ n. n) (λ id. false) (λ a b. true)) {
  fault = λ n. if n == k then some broken else none;
}

retry-atomic_example :
    ((retry (breaks_at 0) (codes "e1") (pos 0) two).1 ≡ two) ⊎ LosesCommit (breaks_at 0)
unfolding retry validate_id validate_bytes transaction begun finish with_rollback bound relabel send
    answer retry_tx
retry-atomic_example =
    retry-atomic (breaks_at 0) (codes "e1") (pos 0) two
      (wrap "retry failed event" (wrap "lock retry event" (message "connection lost"))) refl

batch-atomic_example :
    ((process_batch_with_results (breaks_at 2) (pos 10) two).0.processed ≡ 0)
    × (((process_batch_with_results (breaks_at 2) (pos 10) two).1 ≡ two)
        ⊎ LosesCommit (breaks_at 2))
unfolding process_batch_with_results transaction begun finish with_rollback bound relabel send
    answer batch_tx take_rows post_batch settle_batch isolate integrity_code as_pg_error savepoint
    select_claim order_due insert_due eligible join_usage find same
batch-atomic_example =
    batch-atomic (breaks_at 2) (pos 10) two
      (wrap "process usage batch" (wrap "post ledger entries" (message "connection lost"))) refl
