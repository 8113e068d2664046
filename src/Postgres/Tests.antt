-- ===== src/Postgres/Tests.antt =====
-- Concrete runs of the model, with a server that never fails.
use usage_billing.Prelude.{
  ℕ, ◌+◌, Bytes, codes, same, Bool, true, false, none, some, List, [], ◌∷◌, ◌≡◌, ◌⊎◌, inl, refl,
  arith,
}
use usage_billing.Prelude.Int.{pos, ◌*ℤ◌, ◌+ℤ◌}
use usage_billing.Errors.{wrap, sentinel, queue_full, ok}
use usage_billing.Billing.{Input, Event, ProcessingEvent, validate_id, validate_bytes, same_input}
use usage_billing.Postgres.Table.{any_of, find, has, update, delete}
use usage_billing.Postgres.Schema.{Db, usage_checks, pending_checks, PendingRow}
use usage_billing.Postgres.Session.{
  Server, applied, transaction, begun, finish, committed, with_rollback, bound, relabel, fail_if,
  send, answer, begin, savepoint,
}
use usage_billing.Postgres.Statements.{
  event_of, usage_row, pending_row, insert_usage, take_lock, count_pending, insert_pending,
  select_event, select_pending, update_pending, update_retried, insert_due, order_due, eligible,
  join_usage, select_claim, post_rows, insert_ledger, count_matches, delete_pending,
}
use usage_billing.Postgres.Store.{
  Store, accept, retry, read_event, admit, accept_tx, retry_case, run_case, retry_row, retry_tx,
}
use usage_billing.Postgres.Batch.{
  process_batch_with_results, batch_tx, take_rows, post_batch, settle_batch,
}
use usage_billing.Postgres.Totals.{totals_of, count_where, is_of}
use usage_billing.Postgres.Totals.Partition.{totals-split}
use usage_billing.Postgres.System.{empty, here, next, accepting, processing}
use usage_billing.Postgres.Invariant.{IsConsistent}
use usage_billing.Postgres.Session.Inversion.{LosesCommit}
use usage_billing.Postgres.System.Steps.{reachable-IsConsistent}
use usage_billing.Postgres.System.History.{Extends, Reach-Extends, accept-atomic}
use usage_billing.Postgres.System.Quarantine.{IsUntouched, batch-IsUntouched}
use usage_billing.Postgres.System.Replays.{IsReplay, accept-IsReplay}
use usage_billing.Postgres.System.Progress.{healthy, accept-created}
use usage_billing.Postgres.System.Recovery.{IsReactivated, retry_once}
use usage_billing.Postgres.Store.Admission.{with_event, Accepts, accept_tx-Accepts}
use usage_billing.Postgres.Store.Retrying.{Retries, retry_tx-Retries}
use usage_billing.Postgres.Batch.Commit.{SettlesBatch, batch_tx-SettlesBatch}

abbrev store : Store
store = record { max_pending = 2 }

abbrev srv : Server
srv = record {
  fault = λ n. none;
  clock = λ n. n;
  locked = λ id. false;
  before = λ a b. true;
  cut = none;
  begins = none;
  commits = applied;
  rollbacks = none;
}

abbrev input : Input
input = record {
  event_id = codes "e1";
  customer_id = codes "c1";
  meter = codes "api_calls";
  units = pos 7;
}

abbrev request : Bytes
request = codes "0123456789abcdef0123456789abcdef"

abbrev event : Event
event = record {
  input = input;
  request_id = request;
  unit_price_micros = pos 100;
  amount_micros = pos 700;
  currency = codes "USD";
  processed = false;
  created_at = 0;
  failed = false;
  processing_failures = 0;
  failure_code = [];
  retry_generation = pos 0;
}

abbrev db1 : Db
db1 = (accept srv store event empty).1

test_accept : (accept srv store event empty).0 ≡ ok (event, true)
unfolding accept transaction begun finish committed bound relabel fail_if send answer accept_tx
    admit read_event insert_usage take_lock count_pending insert_pending select_event has find same
    same_input usage_checks ◌*ℤ◌
test_accept = refl

abbrev small : Store
small = record { max_pending = 1 }

abbrev second : Event
second = record event { input = record input { event_id = codes "e2" } }

-- The event of `event`, quarantined after three failures.
abbrev quarantined_row : PendingRow
quarantined_row = record {
  event_id = codes "e1";
  enqueued_at = 3;
  processing_failures = 3;
  failure_code = codes "23514";
  retry_generation = pos 0;
}

abbrev quarantined : Db
quarantined = record { usage = usage_row event 5 ∷ []; pending = quarantined_row ∷ []; ledger = [] }

abbrev reactivated_event : Event
reactivated_event = record event { created_at = 5; retry_generation = pos 1 }

quarantined-IsConsistent : IsConsistent 2 quarantined
unfolding has same usage_checks pending_checks ◌*ℤ◌ any_of
quarantined-IsConsistent = record {
  usage_unique = (refl, tt);
  pending_unique = (refl, tt);
  ledger_unique = tt;
  usage_checked = (refl, tt);
  pending_checked = (refl, tt);
  waits = λ id. ground arith;
  posted = λ id h. absurd (ground arith);
  bounded = omega arith;
}

reachable-IsConsistent_example : IsConsistent 2 (accept srv store event empty).1
reachable-IsConsistent_example =
    reachable-IsConsistent store (accept srv store event empty).1
      (next here (accepting srv event empty))

Reach-Extends_example : Extends quarantined (process_batch_with_results srv (pos 10) quarantined).1
Reach-Extends_example =
    Reach-Extends store quarantined (process_batch_with_results srv (pos 10) quarantined).1
      (next here (processing srv (pos 10) quarantined))

batch-IsUntouched_example :
    IsUntouched (codes "e1") quarantined (process_batch_with_results srv (pos 10) quarantined).1
unfolding find same
batch-IsUntouched_example =
    batch-IsUntouched srv (pos 10) 2 quarantined (codes "e1") quarantined_row
      quarantined-IsConsistent refl (inl refl)

accept-atomic_example : ((accept srv small second quarantined).1 ≡ quarantined) ⊎ LosesCommit srv
unfolding accept transaction begun finish committed with_rollback bound relabel fail_if send answer
    accept_tx admit insert_usage take_lock count_pending has find same usage_checks ◌*ℤ◌
accept-atomic_example =
    accept-atomic small srv second quarantined (wrap "accept usage" (sentinel queue_full)) refl

retry_once_example :
    let db' = (retry srv (codes "e1") (pos 0) quarantined).1 in
    IsReactivated (codes "e1") (pos 0) db'
    × ((retry srv (codes "e1") (pos 0) db').1 ≡ db')
    × ((other : Event) (retried : Bool)
        → (retry srv (codes "e1") (pos 0) db').0 ≡ ok (other, retried)
        → retried ≡ false)
unfolding retry transaction begun finish committed bound relabel send answer retry_tx retry_row
    retry_case run_case read_event select_event select_pending update_retried update_pending update
    find has same pending_checks validate_id validate_bytes ◌+ℤ◌
retry_once_example = retry_once srv srv (codes "e1") (pos 0) quarantined reactivated_event refl

accept_tx-Accepts_example :
    Accepts 2 event
      (record event { created_at = 0 }, true)
      empty
      (accept_tx srv 2 event (begin empty)).1.db
unfolding bound relabel fail_if send answer accept_tx admit read_event insert_usage take_lock
    count_pending insert_pending select_event has find same same_input usage_checks ◌*ℤ◌
accept_tx-Accepts_example =
    accept_tx-Accepts srv 2 event event true (begin empty) (accept_tx srv 2 event (begin empty)).1
      refl

retry_tx-Retries_example :
    let t = (retry_tx srv (codes "e1") (pos 0) (begin quarantined)).1 in
    (select_event (codes "e1") t.db ≡ some reactivated_event)
    × Retries (codes "e1") (pos 0) true quarantined t.db
unfolding bound relabel send answer retry_tx retry_row retry_case run_case read_event select_event
    select_pending update_retried update_pending update find has same pending_checks ◌+ℤ◌
retry_tx-Retries_example =
    retry_tx-Retries srv (codes "e1") (pos 0) reactivated_event true (begin quarantined)
      (retry_tx srv (codes "e1") (pos 0) (begin quarantined)).1 refl

abbrev due : Db
due = record {
  usage = usage_row event 5 ∷ [];
  pending = pending_row (codes "e1") 6 ∷ [];
  ledger = [];
}

abbrev settled : ℕ × List ProcessingEvent
settled = (
  1,
  record {
    request_id = request;
    outcome = codes "processed";
    failure_code = [];
    processing_failures = 0;
    retry_generation = pos 0;
  }
      ∷ [],
)

batch_tx-SettlesBatch_example :
    SettlesBatch (select_claim srv 10 due) settled due (batch_tx srv 10 (begin due)).1.db
unfolding bound relabel send answer batch_tx take_rows post_batch settle_batch savepoint
    insert_ledger post_rows delete_pending count_matches delete select_claim insert_due order_due
    eligible join_usage find has same any_of
batch_tx-SettlesBatch_example =
    batch_tx-SettlesBatch srv 10 (begin due) settled (batch_tx srv 10 (begin due)).1 refl

totals-split_example :
    let s = totals_of (codes "c1") quarantined in
    s.pending + s.processed + s.failed ≡ count_where (is_of (codes "c1")) quarantined.usage
totals-split_example = totals-split 2 (codes "c1") quarantined quarantined-IsConsistent

abbrev repriced : Event
repriced = record event { unit_price_micros = pos 200; amount_micros = pos 1400 }

abbrev first_price : Event
first_price = record event {
  created_at = 5;
  failed = true;
  processing_failures = 3;
  failure_code = codes "23514";
}

accept-IsReplay_example :
    IsReplay
      (usage_row event 5)
      repriced
      first_price
      false
      quarantined
      (accept srv store repriced quarantined).1
unfolding accept transaction begun finish committed bound relabel fail_if send answer accept_tx
    admit read_event insert_usage select_event has find same same_input usage_checks ◌*ℤ◌
accept-IsReplay_example =
    accept-IsReplay store srv repriced first_price false quarantined (usage_row event 5) refl refl

accept-created_example :
    let db' = with_event second 0 3 quarantined in
    accept (healthy (λ n. n) (λ id. false) (λ a b. true)) store second quarantined
    ≡ (ok (event_of db' (usage_row second 0), true), db')
unfolding has same usage_checks ◌*ℤ◌
accept-created_example =
    accept-created (λ n. n) (λ id. false) (λ a b. true) store second quarantined refl refl refl
      (omega arith)
