-- ===== src/Postgres/Statements.antt =====
-- The SQL statements of store.go on the tables, each under the code that sends it.
use usage_billing.Prelude.{
  ℕ, suc, ◌+◌, Bytes, codes, Bool, true, false, not, ◌&&◌, ◌||◌, Option, none, some, List, [], ◌∷◌,
  ◌++◌, length, take, all, ltb, ◌==◌, if◌then◌else◌, min,
}
use usage_billing.Prelude.Int.{ℤ, pos, ◌+ℤ◌, leb_ℤ, max_int64}
use usage_billing.Errors.{pg, Result, ok, err}
use usage_billing.Billing.{Event, ProcessingEvent}
use usage_billing.Postgres.Table.{any_of, find, has, update, delete}
use usage_billing.Postgres.Schema.{
  UsageRow, PendingRow, LedgerRow, Db, usage_key, pending_key, ledger_key, usage_checks,
  pending_checks,
}
use usage_billing.Postgres.Session.{Server}

abbrev pub usage_row : Event → ℕ → UsageRow
usage_row event now = record {
  event_id = event.input.event_id;
  customer_id = event.input.customer_id;
  meter = event.input.meter;
  units = event.input.units;
  unit_price_micros = event.unit_price_micros;
  amount_micros = event.amount_micros;
  currency = event.currency;
  created_at = now;
  request_id = event.request_id;
}

-- INSERT INTO usage_events … ON CONFLICT (event_id) DO NOTHING; whether a row was inserted. The
-- CHECK constraints are tested before the key.
unfoldable pub insert_usage : Event → ℕ → Db → Result (Bool × Db)
insert_usage event now db =
    let row = usage_row event now in
    if not (usage_checks row)
    then err (pg (codes "23514"))
    else if has usage_key event.input.event_id db.usage
    then ok (false, db)
    else ok (true, record db { usage = db.usage ++ row ∷ [] })

-- SELECT pg_advisory_xact_lock(…): the tables stay as they are
unfoldable pub take_lock : ℕ → Db → Result (Unit {0} × Db)
take_lock now db = ok (tt, db)

-- SELECT COUNT(*) FROM (SELECT 1 FROM pending_events LIMIT $1)
unfoldable pub count_pending : ℕ → ℕ → Db → Result (ℕ × Db)
count_pending limit now db = ok (min limit (length db.pending), db)

abbrev pub pending_row : Bytes → ℕ → PendingRow
pending_row id now = record {
  event_id = id;
  enqueued_at = now;
  processing_failures = 0;
  failure_code = [];
  retry_generation = pos 0;
}

-- INSERT INTO pending_events (event_id) VALUES ($1): a foreign key and a primary key
unfoldable pub insert_pending : Bytes → ℕ → Db → Result (Unit {0} × Db)
insert_pending id now db =
    if not (has usage_key id db.usage)
    then err (pg (codes "23503"))
    else if has pending_key id db.pending
    then err (pg (codes "23505"))
    else ok (tt, record db { pending = db.pending ++ pending_row id now ∷ [] })

-- COALESCE over the LEFT JOIN with pending_events
abbrev pub failures_of : Option PendingRow → ℕ
failures_of none = 0
failures_of (some p) = p.processing_failures

abbrev pub code_of : Option PendingRow → Bytes
code_of none = []
code_of (some p) = p.failure_code

abbrev pub generation_of : Option PendingRow → ℤ
generation_of none = pos 0
generation_of (some p) = p.retry_generation

-- The row of `readEvent`, scanned into an event, with its `Failed` flag.
abbrev pub event_of : Db → UsageRow → Event
event_of db u =
    let p = find pending_key u.event_id db.pending in
    record {
      input = record {
        event_id = u.event_id;
        customer_id = u.customer_id;
        meter = u.meter;
        units = u.units;
      };
      request_id = u.request_id;
      unit_price_micros = u.unit_price_micros;
      amount_micros = u.amount_micros;
      currency = u.currency;
      processed = has ledger_key u.event_id db.ledger;
      created_at = u.created_at;
      failed = failures_of p == 3;
      processing_failures = failures_of p;
      failure_code = code_of p;
      retry_generation = generation_of p;
    }

-- SELECT … FROM usage_events u LEFT JOIN pending_events p … WHERE u.event_id = $1
unfoldable pub select_event : Bytes → Db → Option Event
select_event id db = elim (find usage_key id db.usage) [
  | none ↦ none
  | some u ↦ some (event_of db u)
]

-- SELECT processing_failures, retry_generation FROM pending_events WHERE event_id = $1 FOR UPDATE
unfoldable pub select_pending : Bytes → Db → Option (ℕ × ℤ)
select_pending id db = elim (find pending_key id db.pending) [
  | none ↦ none
  | some p ↦ some (p.processing_failures, p.retry_generation)
]

-- An UPDATE of one row of pending_events, whose constraints the new row has to meet.
unfoldable pub update_pending : Bytes → (PendingRow → PendingRow) → Db → Result (Unit {0} × Db)
update_pending id f db =
    let rows = update pending_key id f db.pending in
    if all pending_checks rows
    then ok (tt, record db { pending = rows })
    else err (pg (codes "23514"))

-- SET processing_failures = 0, failure_code = '', retry_generation = retry_generation + 1,
-- enqueued_at = clock_timestamp()
abbrev pub reactivate : ℕ → PendingRow → PendingRow
reactivate now p = record p {
  enqueued_at = now;
  processing_failures = 0;
  failure_code = [];
  retry_generation = p.retry_generation +ℤ pos 1;
}

-- A generation beyond bigint is refused as out of range.
unfoldable pub update_retried : Bytes → ℕ → Db → Result (Unit {0} × Db)
unfolding update_pending
update_retried id now db =
    if leb_ℤ (pos max_int64) (generation_of (find pending_key id db.pending))
    then err (pg (codes "22003"))
    else update_pending id (reactivate now) db

-- SET processing_failures = processing_failures + 1, failure_code = $2
abbrev pub record_failure : Bytes → PendingRow → PendingRow
record_failure code p = record p {
  processing_failures = p.processing_failures + 1;
  failure_code = code;
}

-- The claim's rows, each behind those that are due before it: ORDER BY p.enqueued_at, p.event_id
abbrev pub due_first : (Bytes → Bytes → Bool) → PendingRow → PendingRow → Bool
due_first before a b =
    ltb a.enqueued_at b.enqueued_at
    || (a.enqueued_at == b.enqueued_at && before a.event_id b.event_id)

unfoldable pub insert_due : (Bytes → Bytes → Bool) → PendingRow → List PendingRow → List PendingRow
insert_due before p [] = p ∷ []
insert_due before p (q ∷ rows) =
    if due_first before p q then p ∷ q ∷ rows else q ∷ insert_due before p rows

unfoldable pub order_due : (Bytes → Bytes → Bool) → List PendingRow → List PendingRow
unfolding insert_due
order_due before [] = []
order_due before (p ∷ rows) = insert_due before p (order_due before rows)

-- WHERE p.processing_failures < 3 … FOR UPDATE OF p SKIP LOCKED
unfoldable pub eligible : (Bytes → Bool) → List PendingRow → List PendingRow
eligible locked [] = []
eligible locked (p ∷ rows) =
    let rest = eligible locked rows in
    if ltb p.processing_failures 3 && not (locked p.event_id) then p ∷ rest else rest

-- JOIN usage_events u ON u.event_id = p.event_id
unfoldable pub join_usage : List UsageRow → List PendingRow → List (Bytes × ProcessingEvent)
join_usage usage [] = []
join_usage usage (p ∷ rows) =
    let rest = join_usage usage rows in
    elim (find usage_key p.event_id usage) [
      | none ↦ rest
      | some u ↦
          (
            p.event_id,
            record {
              request_id = u.request_id;
              outcome = [];
              failure_code = [];
              processing_failures = p.processing_failures;
              retry_generation = p.retry_generation;
            },
          )
          ∷ rest
    ]

unfoldable pub select_claim : Server → ℕ → Db → List (Bytes × ProcessingEvent)
unfolding order_due eligible join_usage
select_claim srv limit db =
    take limit (join_usage db.usage (order_due srv.before (eligible srv.locked db.pending)))

-- One row of INSERT INTO ledger_entries … ON CONFLICT (event_id) DO NOTHING
abbrev pub post_row : ℕ → Bytes → List LedgerRow → List LedgerRow
post_row now id ledger =
    if has ledger_key id ledger
    then ledger
    else ledger ++ record { event_id = id; processed_at = now } ∷ []

unfoldable pub post_rows : ℕ → List Bytes → List LedgerRow → List LedgerRow
post_rows now [] ledger = ledger
post_rows now (id ∷ ids) ledger = post_rows now ids (post_row now id ledger)

-- The whole statement; every id is a foreign key. Its rows share the time of the statement.
unfoldable pub insert_ledger : List Bytes → ℕ → Db → Result (Unit {0} × Db)
unfolding post_rows
insert_ledger ids now db =
    if all (λ id. has usage_key id db.usage) ids
    then ok (tt, record db { ledger = post_rows now ids db.ledger })
    else err (pg (codes "23503"))

-- DELETE FROM pending_events WHERE event_id = ANY($1); the number of rows
unfoldable pub count_matches : List Bytes → List PendingRow → ℕ
count_matches ids [] = 0
count_matches ids (p ∷ rows) =
    if any_of ids p.event_id then suc (count_matches ids rows) else count_matches ids rows

unfoldable pub delete_pending : List Bytes → ℕ → Db → Result (ℕ × Db)
unfolding count_matches
delete_pending ids now db =
    ok (count_matches ids db.pending, record db { pending = delete pending_key ids db.pending })
