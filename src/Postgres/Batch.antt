-- ===== src/Postgres/Batch.antt =====
-- internal/postgres/store.go: `ProcessBatchWithResults`, `processIndividually`, `integrityCode`.
pub mod Reports
pub mod Effects
pub mod Commit
pub mod Claims
pub mod Counts
pub mod Due
use usage_billing.Prelude.{
  ℕ, suc, ◌+◌, String, Bytes, codes, Bool, true, false, not, ◌||◌, Option, none, some, List, [],
  ◌∷◌, map, take, ◌==◌, if◌then◌else◌,
}
use usage_billing.Prelude.Int.{ℤ, pos, pos_part, ltb_ℤ}
use usage_billing.Errors.{Error, message, wrap, as_pg_error, Result, ok, err}
use usage_billing.Billing.{ProcessingEvent}
use usage_billing.Postgres.Table.{any_of}
use usage_billing.Postgres.Schema.{Db, integrity_codes}
use usage_billing.Postgres.Session.{
  on_tables, reading, Fault, Server, Session, Tx, pure, fail, labelled, attempt, ◌>>=◌, ◌>>◌,
  fault_error, send, savepoint, rollback_to, release, transaction,
}
use usage_billing.Postgres.Statements.{
  select_claim, insert_ledger, delete_pending, record_failure, update_pending,
}

-- `integrityCode`; the empty text is `none`
unfoldable pub integrity_code : Error → Option Bytes
integrity_code e = elim (as_pg_error e) [
  | none ↦ none
  | some code ↦ if any_of integrity_codes code then some code else none
]

abbrev pub Claim : Type 0
Claim = Bytes × ProcessingEvent

abbrev pub with_outcome : String → ProcessingEvent → ProcessingEvent
with_outcome text item = record item { outcome = codes text }

-- the fields of `results[i]` after a recorded failure
abbrev pub failed_item : Bytes → ProcessingEvent → ProcessingEvent
failed_item code item =
    let failures = item.processing_failures + 1 in
    record item {
      outcome = (if failures == 3 then codes "quarantined" else codes "retry_scheduled");
      failure_code = code;
      processing_failures = failures;
    }

-- `billing.BatchResult` with the error beside it
pub record BatchResult : Type 0 where
  pub processed : ℕ
  pub events : List ProcessingEvent
  pub error : Option Error

-- Only the request identifier of an unconfirmed event is kept.
abbrev pub unconfirmed : ProcessingEvent → ProcessingEvent
unconfirmed item = record {
  request_id = item.request_id;
  outcome = [];
  failure_code = [];
  processing_failures = 0;
  retry_generation = pos 0;
}

abbrev pub reported : Result (ℕ × List ProcessingEvent) → List ProcessingEvent → BatchResult
reported (ok (n, events)) claimed = record { processed = n; events = events; error = none }
reported (err e) claimed = record {
  processed = 0;
  events = map unconfirmed claimed;
  error = some (wrap "process usage batch" e);
}

-- `result.Events = append(result.Events, item)` for the rows read; the connection may break after
-- some of them.
unfoldable pub take_rows : Option (ℕ × Fault) → List Claim → Tx (Unit {0})
take_rows none claims s = (ok tt, record s { claimed = map (λ c. c.1) claims })
take_rows (some (n, f)) claims s = (
  err (wrap "read claimed events" (fault_error f)),
  record s { claimed = map (λ c. c.1) (take n claims); aborted = true },
)

module _ (srv : Server) where
  -- the branch `postErr != nil`, by the error's integrity code
  unfoldable pub settle_failed : Claim → Error → Option Bytes → Tx (ℕ × ProcessingEvent)
  settle_failed (id, item) e none = fail (wrap "post isolated event" e)
  settle_failed (id, item) e (some code) = do
    labelled "restore ledger event" (rollback_to srv (codes "ledger_event"))
    labelled "record event failure"
        (send srv (on_tables (λ now. update_pending id (record_failure code))))
    pure (0, failed_item code item)

  -- both branches on the result of posting one event; what it adds to `processed`
  unfoldable pub settle : Claim → Result (Unit {0}) → Tx (ℕ × ProcessingEvent)
  settle claim (err e) = settle_failed claim e (integrity_code e)
  settle (id, item) (ok done) = do
    labelled "remove isolated completed event" (send srv (on_tables (delete_pending (id ∷ []))))
    pure (1, with_outcome "processed" item)

  -- one round of the loop of `processIndividually`
  unfoldable pub process_one : Claim → Tx (ℕ × ProcessingEvent)
  process_one (id, item) = do
    labelled "save ledger event" (savepoint srv (codes "ledger_event"))
    posted ← attempt (send srv (on_tables (insert_ledger (id ∷ []))))
    settled ← settle (id, item) posted
    labelled "release ledger event" (release srv (codes "ledger_event"))
    pure settled

  -- The loop; the entries of `results` come back as a new list.
  unfoldable pub process_individually : List Claim → Tx (ℕ × List ProcessingEvent)
  process_individually [] = pure (0, [])
  process_individually (claim ∷ claims) = do
    one ← process_one claim
    rest ← process_individually claims
    pure (one.0 + rest.0, one.1 ∷ rest.1)

  -- the branch `err != nil` of the bulk insert, by the error's integrity code
  unfoldable pub isolate : List Claim → Error → Option Bytes → Tx (ℕ × List ProcessingEvent)
  isolate claims e none = fail (wrap "post ledger entries" e)
  isolate claims e (some code) = do
    labelled "restore ledger batch" (rollback_to srv (codes "ledger_batch"))
    process_individually claims

  -- both branches on the result of the bulk insert
  unfoldable pub settle_batch : List Claim → Result (Unit {0}) → Tx (ℕ × List ProcessingEvent)
  settle_batch claims (err e) = isolate claims e (integrity_code e)
  settle_batch claims (ok done) = do
    removed ←
        labelled "remove completed pending events"
          (send srv (on_tables (delete_pending (map (λ c. c.0) claims))))
    pure (removed, map (λ c. with_outcome "processed" c.1) claims)

  -- the rest of the callback, on the claimed rows
  unfoldable pub post_batch : List Claim → Tx (ℕ × List ProcessingEvent)
  post_batch [] = pure (0, [])
  post_batch (claim ∷ claims) = do
    labelled "save ledger batch" (savepoint srv (codes "ledger_batch"))
    posted ← attempt (send srv (on_tables (insert_ledger (map (λ c. c.0) (claim ∷ claims)))))
    settle_batch (claim ∷ claims) posted

  -- the callback of `ProcessBatchWithResults`
  unfoldable pub batch_tx : ℕ → Tx (ℕ × List ProcessingEvent)
  batch_tx limit = do
    claims ← labelled "claim pending events" (send srv (reading (select_claim srv limit)))
    take_rows srv.cut claims
    post_batch claims

  unfoldable pub process_batch_with_results : ℤ → Db → BatchResult × Db
  process_batch_with_results limit db =
      if ltb_ℤ limit (pos 1) || ltb_ℤ (pos 1000) limit
      then (
        record {
          processed = 0;
          events = [];
          error = some (message "batch limit must be between 1 and 1000");
        },
        db,
      )
      else let (r, db', claimed) = transaction srv (batch_tx (pos_part limit)) db in
        (reported r claimed, db')

  -- `ProcessBatch`
  unfoldable pub process_batch : ℤ → Db → (ℕ × Option Error) × Db
  unfolding process_batch_with_results
  process_batch limit db =
      let (result, db') = process_batch_with_results limit db in
      ((result.processed, result.error), db')
