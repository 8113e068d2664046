-- ===== src/Postgres/System/History.antt =====
-- What no later call changes: accepted usage with its price, and the charges.
use usage_billing.Prelude.{ℕ, Bytes, true, List, [], ◌∷◌, some, ◌≡◌, ◌⊎◌, inl, inr, refl}
use usage_billing.Errors.{Error, Result, ok, err}
use usage_billing.Billing.{Event, ProcessingEvent, wrapping}
use usage_billing.Postgres.Table.{find, has}
use usage_billing.Postgres.Table.Laws.{find-append}
use usage_billing.Postgres.Schema.{Db, UsageRow, usage_key, ledger_key}
use usage_billing.Postgres.Session.{Server}
use usage_billing.Postgres.Session.Inversion.{LosesCommit, transaction-failure}
use usage_billing.Postgres.Statements.{usage_row, select_claim}
use usage_billing.Postgres.Store.{Store, accept_tx, accept}
use usage_billing.Postgres.Batch.{Claim}
use usage_billing.Postgres.Batch.Effects.{Posts, SettlesOne, SettlesEach}
use usage_billing.Postgres.Batch.Commit.{claim_ids}
use usage_billing.Postgres.Invariant.Batches.{has-post_rows}
use usage_billing.Postgres.System.{Reach, here, next}
use usage_billing.Postgres.System.Steps.{Change, admission, recovery, batch, nothing, Step-Change}

-- A later state of the tables: each accepted row is still there, unchanged, and so is each charge.
pub record Extends (db db' : Db) : Type 0 where
  pub frozen :
      (id : Bytes) (u : UsageRow)
      → find usage_key id db.usage ≡ some u
      → find usage_key id db'.usage ≡ some u
  pub charged :
      (id : Bytes) → has ledger_key id db.ledger ≡ true → has ledger_key id db'.ledger ≡ true

Extends-refl : (db : Db) → Extends db db
Extends-refl db = record { frozen = λ id u h. h; charged = λ id h. h }

Extends-of_eq : {db db' : Db} → db' ≡ db → Extends db db'
Extends-of_eq {db} e = rw e (Extends-refl db)

Extends-trans : {a b c : Db} → Extends a b → Extends b c → Extends a c
Extends-trans p q = record {
  frozen = λ id u h. q.frozen id u (p.frozen id u h);
  charged = λ id h. q.charged id (p.charged id h);
}

-- A change of the queue alone.
Extends-queue : {db db' : Db} → db'.usage ≡ db.usage → db'.ledger ≡ db.ledger → Extends db db'
Extends-queue e k = record { frozen = λ id u h. rw e h; charged = λ id h. rw k h }

Posts-Extends : (ids : List Bytes) {db db' : Db} → Posts ids db db' → Extends db db'
Posts-Extends ids {db} (now, known, same_db) = rw same_db (record {
  frozen = λ id u h. h;
  charged = λ id h. rw (has-post_rows now ids id db.ledger, h) refl;
})

SettlesOne-Extends :
    (claim : Claim) {n : ℕ} {item : ProcessingEvent} {db db' : Db}
    → SettlesOne claim n item db db'
    → Extends db db'
SettlesOne-Extends claim (inl (_, _, posts)) = Posts-Extends (claim.0 ∷ []) posts
SettlesOne-Extends claim (inr (code, _, _, (_, (_, same_db)))) =
    rw same_db (Extends-queue refl refl)

SettlesEach-Extends :
    (claims : List Claim) (n : ℕ) (items : List ProcessingEvent) {db db' : Db}
    → SettlesEach claims n items db db'
    → Extends db db'
SettlesEach-Extends [] n items (_, _, same_db) = Extends-of_eq same_db
SettlesEach-Extends (claim ∷ claims) n items (n₁, item, n₂, rest, mid, first, later, _, _) =
    Extends-trans (SettlesOne-Extends claim first) (SettlesEach-Extends claims n₂ rest later)

Change-Extends : {store : Store} {db db' : Db} → Change store db db' → Extends db db'
Change-Extends {db} (admission event (created, enqueued, _, _, _, _, same_db)) =
    rw same_db (record {
      frozen = λ id u h. find-append usage_key id db.usage (usage_row event created ∷ []) u h;
      charged = λ id h. h;
    })
Change-Extends (recovery id generation retried (inl (_, (now, p, _, _, _, (_, same_db))))) =
    rw same_db (Extends-queue refl refl)
Change-Extends (recovery id generation retried (inr (_, same_db, _))) = Extends-of_eq same_db
Change-Extends {db} (batch srv limit p (inl (_, _, posts))) =
    Posts-Extends (claim_ids (select_claim srv limit db)) posts
Change-Extends {db} (batch srv limit p (inr each)) =
    SettlesEach-Extends (select_claim srv limit db) p.0 p.1 each
Change-Extends nothing = Extends-refl _

-- An accepted event keeps its input, price and amount for ever, and a posted charge stays posted,
-- whatever calls follow and however they fail.
pub Reach-Extends : (store : Store) (db db' : Db) → Reach store db db' → Extends db db'
Reach-Extends store db db' r = extends r
  where
    extends : {t : Db} → Reach store db t → Extends db t
    extends here = Extends-refl db
    extends (next before step) = Extends-trans (extends before) (Change-Extends (Step-Change step))

pub wrapped :
    {A : Type 0} (text : _) (r : Result A) (e : Error)
    → wrapping text r ≡ err e
    → (e' : Error) × (r ≡ err e')
wrapped text (ok a) e h = cc
wrapped text (err e') e h = (e', refl)

-- An `Accept` that returns an error has changed nothing, unless the answer to its commit was lost.
pub accept-atomic :
    (store : Store) (srv : Server) (event : Event) (db : Db) (e : Error)
    → (accept srv store event db).0 ≡ err e
    → ((accept srv store event db).1 ≡ db) ⊎ LosesCommit srv
unfolding accept
accept-atomic store srv event db e h =
    let (e', k) = wrapped "accept usage" _ e h in
    transaction-failure srv (accept_tx srv store.max_pending event) db e' k
