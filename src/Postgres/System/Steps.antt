-- ===== src/Postgres/System/Steps.antt =====
-- Every call keeps the invariant, so it holds of all tables that calls can lead to.
use usage_billing.Prelude.{ℕ, Bytes, Bool, true, false, inl, inr, refl, arith, if◌then◌else◌, List}
use usage_billing.Prelude.Int.{ℤ, pos_part}
use usage_billing.Billing.{Event, ProcessingEvent}
use usage_billing.Postgres.Schema.{Db}
use usage_billing.Postgres.Table.{has}
use usage_billing.Postgres.Session.{Server, begin}
use usage_billing.Postgres.Session.Inversion.{transaction-keeps}
use usage_billing.Postgres.Store.{Store, accept_tx, retry_tx, accept, retry}
use usage_billing.Postgres.Store.Admission.{Accepts, Admits, accept_tx-Accepts}
use usage_billing.Postgres.Store.Retrying.{Retries, retry_tx-Retries}
use usage_billing.Postgres.Batch.{batch_tx, process_batch_with_results}
use usage_billing.Postgres.Batch.Commit.{SettlesBatch, batch_tx-SettlesBatch}
use usage_billing.Postgres.Statements.{select_claim}
use usage_billing.Postgres.Invariant.{IsConsistent}
use usage_billing.Postgres.Invariant.Keeps.{Admits-IsConsistent}
use usage_billing.Postgres.Invariant.Batches.{Retries-IsConsistent, SettlesBatch-IsConsistent}
use usage_billing.Postgres.System.{Step, accepting, retrying, processing, Reach, here, next, empty}

-- The change that one committed call makes.
pub data Change (store : Store) (db : Db) : Db → Type 0 where
  admission :
      (event : Event) {db' : Db} → Admits store.max_pending event db db' → Change store db db'
  recovery :
      (id : Bytes) (generation : ℤ) (retried : Bool) {db' : Db}
      → Retries id generation retried db db'
      → Change store db db'
  batch :
      (srv : Server) (limit : ℕ) (p : ℕ × List ProcessingEvent) {db' : Db}
      → SettlesBatch (select_claim srv limit db) p db db'
      → Change store db db'
  nothing : Change store db db

pub either :
    {A : Type 0} (P : Db → Type 0) (b : Bool) (x y : A × Db)
    → P x.1
    → P y.1
    → P (if b then x else y).1
either P true x y p q = p
either P false x y p q = q

accept-Change :
    (store : Store) (srv : Server) (event : Event) (db : Db)
    → Change store db (accept srv store event db).1
unfolding accept
accept-Change store srv event db =
    transaction-keeps srv (accept_tx srv store.max_pending event) db (Change store db) nothing
      (λ a s e.
        accepted_change (accept_tx-Accepts srv store.max_pending event a.0 a.1 (begin db) s e))
  where
    accepted_change :
        {a : Event × Bool} {db' : Db}
        → Accepts store.max_pending event a db db'
        → Change store db db'
    accepted_change (read, agrees, inl (flag, (there, same))) = rw same nothing
    accepted_change (read, agrees, inr (flag, admits)) = admission event admits

retry-Change :
    (store : Store) (srv : Server) (id : Bytes) (generation : ℤ) (db : Db)
    → Change store db (retry srv id generation db).1
unfolding retry
retry-Change store srv id generation db = either (Change store db) _ _ _ nothing (
    transaction-keeps srv (retry_tx srv id generation) db (Change store db) nothing (λ a s e.
      recovery id generation a.1 (retry_tx-Retries srv id generation a.0 a.1 (begin db) s e).1))

process-Change :
    (store : Store) (srv : Server) (limit : ℤ) (db : Db)
    → Change store db (process_batch_with_results srv limit db).1
unfolding process_batch_with_results
process-Change store srv limit db = either (Change store db) _ _ _ nothing (
    transaction-keeps srv (batch_tx srv (pos_part limit)) db (Change store db) nothing (λ p s e.
      batch srv (pos_part limit) p (batch_tx-SettlesBatch srv (pos_part limit) (begin db) p s e)))

-- Whatever fails on the way, a call makes one of these changes as a whole, or none.
pub Step-Change : {store : Store} {db db' : Db} → Step store db db' → Change store db db'
Step-Change {store} (accepting srv event db) = accept-Change store srv event db
Step-Change {store} (retrying srv id generation db) = retry-Change store srv id generation db
Step-Change {store} (processing srv limit db) = process-Change store srv limit db

Change-IsConsistent :
    {store : Store} {db db' : Db}
    → Change store db db'
    → IsConsistent store.max_pending db
    → IsConsistent store.max_pending db'
Change-IsConsistent (admission event admits) h = Admits-IsConsistent event h admits
Change-IsConsistent (recovery id generation retried retries) h =
    Retries-IsConsistent id generation retried h retries
Change-IsConsistent {db} (batch srv limit p settles) h =
    SettlesBatch-IsConsistent (select_claim srv limit db) p h settles
Change-IsConsistent nothing h = h

pub Reach-IsConsistent :
    {store : Store} {db db' : Db}
    → IsConsistent store.max_pending db
    → Reach store db db'
    → IsConsistent store.max_pending db'
Reach-IsConsistent h here = h
Reach-IsConsistent h (next before step) =
    Change-IsConsistent (Step-Change step) (Reach-IsConsistent h before)

pub empty-IsConsistent : (limit : ℕ) → IsConsistent limit empty
unfolding has
empty-IsConsistent limit = record {
  usage_unique = tt;
  pending_unique = tt;
  ledger_unique = tt;
  usage_checked = tt;
  pending_checked = tt;
  waits = λ id. refl;
  posted = λ id h. h;
  bounded = omega arith;
}

-- Starting from the empty tables, any calls, in any order and with any failures, lead to consistent
-- tables: keys are unique and rows meet their constraints; an accepted event is queued exactly until
-- it is in the ledger; the ledger holds accepted events only; and the queue holds at most the
-- configured number of rows.
pub reachable-IsConsistent :
    (store : Store) (db : Db) → Reach store empty db → IsConsistent store.max_pending db
reachable-IsConsistent store db r = Reach-IsConsistent (empty-IsConsistent store.max_pending) r
