-- ===== src/Postgres/Store.antt =====
-- internal/postgres/store.go: `New`, `NewWithQueueLimit`, `Accept`, `Get`, `Retry`. `Summary` and
-- `QueueStats` are in Postgres/Totals.
pub mod Admission
pub mod Retrying
use usage_billing.Prelude.{
  ℕ, ◌+◌, String, Bytes, codes, Bool, true, false, not, ◌&&◌, ◌||◌, Option, none, some, List, [],
  ◌∷◌, length, ltb, leb, ◌==◌, if◌then◌else◌,
}
use usage_billing.Prelude.Int.{ℤ, pos, pos_part, add64, leb_ℤ, ltb_ℤ, ◌==ℤ◌, max_int64}
use usage_billing.Errors.{
  Error, sentinel, message, wrap, invalid, conflict, not_found, queue_full, retry_conflict, Result,
  ok, err,
}
use usage_billing.Billing.{Input, Event, same_input, validate_id, wrapping}
use usage_billing.Postgres.Schema.{Db}
use usage_billing.Postgres.Session.{
  on_tables, reading, Server, Session, Tx, pure, fail, fail_if, labelled, ◌>>=◌, ◌>>◌, Statement,
  fault_error, send, transaction,
}
use usage_billing.Postgres.Statements.{
  insert_usage, take_lock, count_pending, insert_pending, select_event, select_pending,
  update_retried,
}

-- `Store` without its pool, which the record `Server` stands for.
pub record Store : Type 0 where
  pub max_pending : ℕ

unfoldable pub new_store : Store
new_store = record { max_pending = 10000 }

-- The pool is nil or not.
unfoldable pub new_with_queue_limit : Bool → ℤ → Result Store
new_with_queue_limit has_pool limit =
    if not has_pool || ltb_ℤ limit (pos 1) || ltb_ℤ (pos 1000000) limit
    then err (message "pool and queue limit between 1 and 1000000 are required")
    else ok (record { max_pending = pos_part limit })

-- `err != nil`
abbrev pub is_set : Option Error → Bool
is_set none = false
is_set (some e) = true

abbrev pub found : Option Event → Tx Event
found none = fail (sentinel not_found)
found (some e) = pure e

-- The cases of the `switch` in `Retry`.
pub data RetryCase : Type 0 where
  reactivation repetition mismatch : RetryCase

unfoldable pub retry_case : ℕ → ℤ → ℤ → RetryCase
retry_case failures current generation =
    if failures == 3 && current ==ℤ generation
    then reactivation
    else if ltb failures 3 && current ==ℤ add64 generation (pos 1)
    then repetition
    else mismatch

module _ (srv : Server) where
  -- `readEvent` inside a transaction
  unfoldable pub read_event : Bytes → Tx Event
  read_event id = do
    row ← labelled "read usage event" (send srv (reading (select_event id)))
    found row

  -- `Get`: the same query over the pool, outside a transaction
  unfoldable pub get_event : Bytes → Db → Result Event
  get_event id db = elim (srv.fault 0) [
    | some f ↦ err (wrap "read usage event" (fault_error f))
    | none ↦ elim (select_event id db) [ none ↦ err (sentinel not_found) | some e ↦ ok e ]
  ]

  -- `if created { … }` in `Accept`. The lock is held until the transaction ends.
  unfoldable pub admit : ℕ → Bool → Bytes → Tx (Unit {0})
  admit max_pending false id = pure tt
  admit max_pending true id = do
    labelled "lock queue admission" (send srv (on_tables take_lock))
    pending ← labelled "check queue capacity" (send srv (on_tables (count_pending max_pending)))
    fail_if (leb max_pending pending) (sentinel queue_full)
    labelled "enqueue usage event" (send srv (on_tables (insert_pending id)))

  -- the callback of `Accept`
  unfoldable pub accept_tx : ℕ → Event → Tx (Event × Bool)
  accept_tx max_pending event = do
    created ← labelled "insert usage event" (send srv (on_tables (insert_usage event)))
    admit max_pending created event.input.event_id
    stored ← read_event event.input.event_id
    fail_if (not (same_input stored.input event.input)) (sentinel conflict)
    pure (stored, created)

  unfoldable pub accept : Store → Event → Db → Result (Event × Bool) × Db
  accept store event db =
      let (r, db', claimed) = transaction srv (accept_tx store.max_pending event) db in
      (wrapping "accept usage" r, db')

  -- The body of each case; whether the event was reactivated.
  unfoldable pub run_case : RetryCase → Bytes → Tx Bool
  run_case reactivation id = do
    labelled "reactivate failed event" (send srv (on_tables (update_retried id)))
    pure true
  run_case repetition id = pure false
  run_case mismatch id = fail (sentinel retry_conflict)

  -- `if err == nil { switch { … } }`
  unfoldable pub retry_row : Bytes → ℤ → Option (ℕ × ℤ) → Tx Bool
  unfolding run_case
  retry_row id generation none = pure false
  retry_row id generation (some (failures, current)) =
      run_case (retry_case failures current generation) id

  -- the callback of `Retry`
  unfoldable pub retry_tx : Bytes → ℤ → Tx (Event × Bool)
  retry_tx id generation = do
    row ← labelled "lock retry event" (send srv (reading (select_pending id)))
    retried ← retry_row id generation row
    event ← read_event id
    pure (event, retried)

  unfoldable pub retry : Bytes → ℤ → Db → Result (Event × Bool) × Db
  retry id generation db =
      if is_set (validate_id id) || ltb_ℤ generation (pos 0) || generation ==ℤ pos max_int64
      then (err (sentinel invalid), db)
      else let (r, db', claimed) = transaction srv (retry_tx id generation) db in
        (wrapping "retry failed event" r, db')
