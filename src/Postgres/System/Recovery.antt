-- ===== src/Postgres/System/Recovery.antt =====
-- Retrying a failed event: the generation makes a request take effect once.
use usage_billing.Prelude.{
  Bytes, List, Bool, true, false, some, ◌≡◌, inl, inr, ap, refl, arith, if◌then◌else◌, String,
}
use usage_billing.Prelude.Int.{ℤ, pos, ◌+ℤ◌}
use usage_billing.Errors.{Error, Result, ok, err}
use usage_billing.Billing.{Event, ProcessingEvent, wrapping}
use usage_billing.Postgres.Table.{find}
use usage_billing.Postgres.Table.Laws.{find-update_self}
use usage_billing.Postgres.Schema.{Db, PendingRow, pending_key}
use usage_billing.Postgres.Session.{Server, begin, transaction}
use usage_billing.Postgres.Session.Inversion.{transaction-keeps, transaction-success}
use usage_billing.Postgres.Statements.{reactivate}
use usage_billing.Postgres.Store.{retry_tx, retry}
use usage_billing.Postgres.Store.Retrying.{Retries, Reactivates, retry_tx-Retries}
use usage_billing.Postgres.System.Steps.{either}

-- The row after a reactivation: due again, one generation later.
abbrev pub IsReactivated : Bytes → ℤ → Db → Type 0
IsReactivated id generation db =
    (p : PendingRow) × (find pending_key id db.pending ≡ some p)
    × (p.processing_failures ≡ 0)
    × (p.retry_generation ≡ generation +ℤ pos 1)

Reactivates-IsReactivated :
    (id : Bytes) (generation : ℤ) (db db' : Db)
    → Reactivates id generation db db'
    → IsReactivated id generation db'
Reactivates-IsReactivated id generation db db' (now, p, e, three, current, (checked, same_db)) = (
  reactivate now p,
  rw same_db (find-update_self pending_key (reactivate now) (λ r. refl) id db.pending p e),
  refl,
  rw current,
)

-- On such a row the same request does nothing more.
repeats :
    (id : Bytes) (generation : ℤ) (retried : Bool) {db db' : Db}
    → IsReactivated id generation db
    → Retries id generation retried db db'
    → (retried ≡ false) × (db' ≡ db)
repeats id generation retried (p, e, zero_failures, _) (inl (_, (now, q, k, three, _, _))) =
    let same_row : p ≡ q = cc (e, k) in
    absurd (ground (arith, ap (λ (r : PendingRow). r.processing_failures) same_row))
repeats id generation retried h (inr (flag, same_db, _)) = (flag, same_db)

success_inv :
    {A : Type 0} (text : String) (b : Bool) (e : Error) (x : Result A × Db × List ProcessingEvent)
    (db : Db) (a : A)
    → (◌≡◌ {A = Result A}
        (if◌then◌else◌ {A = Result A × Db} b (err e, db) (wrapping text x.0, x.1)).0
        (ok a))
    → (b ≡ false) × (x.0 ≡ ok a)
success_inv text true e x db a h = cc
success_inv text false e (ok c, db', l) db a h = (refl, h)
success_inv text false e (err c, db', l) db a h = cc

-- A successful `Retry` committed its callback.
retry-Retries :
    (srv : Server) (id : Bytes) (generation : ℤ) (db : Db) (event : Event) (retried : Bool)
    → (retry srv id generation db).0 ≡ ok (event, retried)
    → Retries id generation retried db (retry srv id generation db).1
unfolding retry
retry-Retries srv id generation db event retried h =
    let (allowed, r) =
      success_inv "retry failed event" _ _ (transaction srv (retry_tx srv id generation) db) db
        (event, retried) h in
    let (s, e, same) = transaction-success srv (retry_tx srv id generation) db (event, retried) r in
    let done = retry_tx-Retries srv id generation event retried (begin db) s e in
    rw (allowed, same) done.1

retry_again :
    (srv : Server) (id : Bytes) (generation : ℤ) (db : Db)
    → IsReactivated id generation db
    → (retry srv id generation db).1 ≡ db
unfolding retry
retry_again srv id generation db h =
    either (λ x. x ≡ db) _ _ _ refl
      (transaction-keeps srv (retry_tx srv id generation) db (λ x. x ≡ db) refl
        (λ a s e.
          (repeats id generation a.1 h
            (retry_tx-Retries srv id generation a.0 a.1 (begin db) s e).1).1))

-- After a `Retry` that reports a new reactivation, the event is due again one generation later, and
-- sending the same request again changes nothing and reports no reactivation.
pub retry_once :
    (srv again : Server) (id : Bytes) (generation : ℤ) (db : Db) (event : Event)
    → (retry srv id generation db).0 ≡ ok (event, true)
    → let db' = (retry srv id generation db).1 in
      IsReactivated id generation db'
      × ((retry again id generation db').1 ≡ db')
      × ((other : Event) (retried : Bool)
          → (retry again id generation db').0 ≡ ok (other, retried)
          → retried ≡ false)
retry_once srv again id generation db event h =
    elim (retry-Retries srv id generation db event true h) [
      | inr (flag, _, _) ↦ cc
      | inl (_, reactivates) ↦
          let db' = (retry srv id generation db).1 in
          let due = Reactivates-IsReactivated id generation db db' reactivates in
          (
            due,
            retry_again again id generation db' due,
            λ other retried k.
                (repeats id generation retried due
                  (retry-Retries again id generation db' other retried k)).0,
          )
    ]
