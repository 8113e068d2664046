-- ===== src/Postgres/Session.antt =====
-- A transaction of store.go: statements sent one after the other over one connection.
pub mod Inversion
pub mod Savepoints
use usage_billing.Prelude.{
  ℕ, zero, suc, String, Bytes, codes, same, Bool, true, false, Option, none, some, List, [], ◌∷◌,
  if◌then◌else◌,
}
use usage_billing.Errors.{
  Error, sentinel, pg, message, wrap, join, canceled, deadline_exceeded, Result, ok, err,
}
use usage_billing.Billing.{ProcessingEvent, wrapping}
use usage_billing.Postgres.Schema.{Db}

-- A failure that does not come from the statement itself: an error of the server with its SQLSTATE,
-- an ended context, or a broken connection.
pub data Fault : Type 0 where
  refused : Bytes → Fault
  cancelled timed_out broken : Fault

abbrev pub fault_error : Fault → Error
fault_error (refused code) = pg code
fault_error cancelled = sentinel canceled
fault_error timed_out = sentinel deadline_exceeded
fault_error broken = message "connection lost"

-- How a commit ends: applied; not applied; or applied, with its answer lost.
pub data Commit : Type 0 where
  applied : Commit
  dropped lost : Fault → Commit

-- What the server, the driver and other sessions contribute to one call. Statement n of the call
-- fails with `fault n` if that is given, and else runs at the time `clock n`. `locked` are the
-- pending rows that other transactions hold, `before` is the collation's order of texts, and
-- `cut` breaks the connection after some rows of a claim were read.
pub record Server : Type 0 where
  pub fault : ℕ → Option Fault
  pub clock : ℕ → ℕ
  pub locked : Bytes → Bool
  pub before : Bytes → Bytes → Bool
  pub cut : Option (ℕ × Fault)
  pub begins : Option Fault
  pub commits : Commit
  pub rollbacks : Option Fault

-- The transaction's view of the tables, its savepoints, whether a statement has failed, how many
-- were sent, and the variable `result.Events` that the callback of a batch writes.
pub record Session : Type 0 where
  pub db : Db
  pub savepoints : List (Bytes × Db)
  pub aborted : Bool
  pub sent : ℕ
  pub claimed : List ProcessingEvent

abbrev pub Tx : Type 0 → Type 0
Tx A = Session → Result A × Session

module _ {A : Type 0} where
  abbrev pub pure : A → Tx A
  pure a s = (ok a, s)

  abbrev pub fail : Error → Tx A
  fail e s = (err e, s)

  unfoldable pub relabel : String → Result A × Session → Result A × Session
  relabel text (ok a, s) = (ok a, s)
  relabel text (err e, s) = (err (wrap text e), s)

  -- `if err != nil { return fmt.Errorf("text: %w", err) }` after a call
  abbrev pub labelled : String → Tx A → Tx A
  labelled text m s = relabel text (m s)

  -- The call's error as a value.
  abbrev pub attempt : Tx A → Tx (Result A)
  attempt m s = let (r, s') = m s in (ok r, s')

-- `if b { return e }`
unfoldable pub fail_if : Bool → Error → Tx (Unit {0})
fail_if true e s = (err e, s)
fail_if false e s = (ok tt, s)

-- The rest of a body, after a call.
unfoldable pub bound : {A B : Type 0} → Result A × Session → (A → Tx B) → Result B × Session
bound (ok a, s) f = f a s
bound (err e, s) f = (err e, s)

infixl 5 ◌>>=◌ ◌>>◌
abbrev pub ◌>>=◌ : {A B : Type 0} → Tx A → (A → Tx B) → Tx B
◌>>=◌ m f s = bound (m s) f

abbrev pub ◌>>◌ : {A B : Type 0} → Tx A → Tx B → Tx B
m >> k = m >>= λ _. k

-- What a statement does at a given time, if the server runs it.
abbrev pub Statement : Type 0 → Type 0
Statement A = ℕ → Session → Result (A × Session)

-- A statement that reads or writes only the tables.
abbrev pub on_tables : {A : Type 0} → (ℕ → Db → Result (A × Db)) → Statement A
on_tables q now s = elim (q now s.db) [ ok (a, db) ↦ ok (a, record s { db = db }) | err e ↦ err e ]

abbrev pub reading : {A : Type 0} → (Db → A) → Statement A
reading q now s = ok (q s.db, s)

-- A failed statement changes nothing, and the transaction takes no further ones.
unfoldable pub answer :
    {A : Type 0} → Option Fault → Result (A × Session) → Session → Result A × Session
answer (some f) r s = (err (fault_error f), record s { aborted = true; sent = suc s.sent })
answer none (ok (a, s')) s = (ok a, record s' { sent = suc s.sent })
answer none (err e) s = (err e, record s { aborted = true; sent = suc s.sent })

-- The savepoints from the latest one of that name on.
unfoldable pub from_savepoint : Bytes → List (Bytes × Db) → Option (Db × List (Bytes × Db))
from_savepoint name [] = none
from_savepoint name ((n, d) ∷ points) =
    if same n name then some (d, points) else from_savepoint name points

unfoldable pub restored :
    Bytes → Session → Option (Db × List (Bytes × Db)) → Result (Unit {0} × Session)
restored name s none = err (pg (codes "3B001"))
restored name s (some (d, points)) =
    ok (tt, record s { db = d; savepoints = (name, d) ∷ points; aborted = false })

unfoldable pub released : Session → Option (Db × List (Bytes × Db)) → Result (Unit {0} × Session)
released s none = err (pg (codes "3B001"))
released s (some (d, points)) = ok (tt, record s { savepoints = points })

abbrev pub begin : Db → Session
begin db = record { db = db; savepoints = []; aborted = false; sent = 0; claimed = [] }

module _ (srv : Server) where
  unfoldable pub send : {A : Type 0} → Statement A → Tx A
  unfolding answer
  send statement s =
      if s.aborted
      then (err (pg (codes "25P02")), record s { sent = suc s.sent })
      else answer (srv.fault s.sent) (statement (srv.clock s.sent) s) s

  -- `ROLLBACK TO SAVEPOINT name`, which an aborted transaction takes too
  unfoldable pub rollback_to : Bytes → Tx (Unit {0})
  unfolding answer restored from_savepoint
  rollback_to name s =
      answer (srv.fault s.sent) (restored name s (from_savepoint name s.savepoints)) s

  -- `SAVEPOINT name`
  unfoldable pub savepoint : Bytes → Tx (Unit {0})
  savepoint name = send (λ now s. ok (tt, record s { savepoints = (name, s.db) ∷ s.savepoints }))

  -- `RELEASE SAVEPOINT name`
  unfoldable pub release : Bytes → Tx (Unit {0})
  release name = send (λ now s. released s (from_savepoint name s.savepoints))

  -- The deferred call: a failed rollback is joined to the error. After a commit, failed or not, the
  -- transaction is closed, and `ErrTxClosed` is dropped.
  unfoldable pub with_rollback : Error → Error
  with_rollback e = elim srv.rollbacks [
    | none ↦ e
    | some f ↦ join e (wrap "rollback transaction" (fault_error f))
  ]

  -- What the caller of `transaction` sees: the result, the tables, and the variable that the callback
  -- wrote.
  unfoldable pub committed : {A : Type 0} → Commit → A → Db → Db → Result A × Db
  committed applied a new old = (ok a, new)
  committed (dropped f) a new old = (err (wrap "commit transaction" (fault_error f)), old)
  committed (lost f) a new old = (err (wrap "commit transaction" (fault_error f)), new)

  unfoldable pub finish : {A : Type 0} → Db → Result A → Session → Result A × Db
  finish old (err e) s = (err (with_rollback e), old)
  finish old (ok a) s =
      if s.aborted
      then (
        err (wrap "commit transaction" (message "commit unexpectedly resulted in rollback")),
        old,
      )
      else committed srv.commits a s.db old

  -- `transaction` behind its `BeginTx`
  unfoldable pub begun :
      {A : Type 0} → Option Fault → Tx A → Db → Result A × Db × List ProcessingEvent
  unfolding finish committed with_rollback
  begun (some f) body db = (err (wrap "begin transaction" (fault_error f)), db, [])
  begun none body db =
      let (r, s) = body (begin db) in let (r', db') = finish db r s in (r', db', s.claimed)

  unfoldable pub transaction : {A : Type 0} → Tx A → Db → Result A × Db × List ProcessingEvent
  unfolding begun
  transaction body db = begun srv.begins body db
