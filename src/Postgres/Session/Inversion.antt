-- ===== src/Postgres/Session/Inversion.antt =====
-- What a transaction that ended well has done: the steps behind a successful `do` block, a
-- statement, and a commit.
use mathlib.Core.Path.{subst}
use usage_billing.Prelude.{
  ℕ, suc, String, List, Bool, true, false, if◌then◌else◌, Option, none, some, ◌≡◌, ap, sym, ◌⊎◌,
  inl, inr, refl,
}
use usage_billing.Errors.{Error, Result, ok, err}
use usage_billing.Billing.{ProcessingEvent}
use usage_billing.Postgres.Schema.{Db}
use usage_billing.Postgres.Session.{
  Fault, Commit, applied, dropped, lost, Server, Session, Tx, fail_if, bound, relabel, Statement,
  on_tables, reading, answer, send, begin, finish, committed, begun, transaction,
}

module _ {A B : Type 0} where
  bound_inv :
      (r : Result A × Session) (f : A → Tx B) (b : B) (t : Session)
      → bound r f ≡ (ok b, t)
      → (a : A) × (s : Session) × (r ≡ (ok a, s)) × (f a s ≡ (ok b, t))
  unfolding bound
  bound_inv (ok a, s) f b t h = (a, s, refl, h)
  bound_inv (err e, s) f b t h = cc

  -- The two halves of a body that ended well.
  pub bound-ok :
      {r : Result A × Session} {f : A → Tx B} {b : B} {t : Session}
      → bound r f ≡ (ok b, t)
      → (a : A) × (s : Session) × (r ≡ (ok a, s)) × (f a s ≡ (ok b, t))
  bound-ok {r} {f} {b} {t} h = bound_inv r f b t h

module _ {A : Type 0} where
  pub relabel_inv :
      (text : String) (r : Result A × Session) (a : A) (t : Session)
      → relabel text r ≡ (ok a, t)
      → r ≡ (ok a, t)
  unfolding relabel
  relabel_inv text (ok b, s) a t h = h
  relabel_inv text (err e, s) a t h = cc

  pub answer_inv :
      (f : Option Fault) (r : Result (A × Session)) (s : Session) (a : A) (t : Session)
      → answer f r s ≡ (ok a, t)
      → (u : Session) × (r ≡ ok (a, u)) × (t ≡ record u { sent = suc s.sent })
  unfolding answer
  answer_inv (some f) r s a t h = cc
  answer_inv none (err e) s a t h = cc
  answer_inv none (ok (b, u)) s a t h =
      let same_value : b ≡ a = cc in
      let same_state : record u { sent = suc s.sent } ≡ t =
        ap (λ (p : Result A × Session). p.1) h in
      (u, rw same_value, sym same_state)

  gate_inv :
      (b : Bool) (e : Error) (s : Session) (y : Result A × Session) (a : A) (t : Session)
      → (if b then (err e, s) else y) ≡ (ok a, t)
      → (b ≡ false) × (y ≡ (ok a, t))
  gate_inv true e s y a t h = cc
  gate_inv false e s y a t h = (refl, h)

  -- A statement that succeeded was sent in a working transaction, and did what it does.
  pub send-ok :
      (srv : Server) (q : Statement A) (s : Session) {a : A} {t : Session}
      → send srv q s ≡ (ok a, t)
      → (u : Session) × (q (srv.clock s.sent) s ≡ ok (a, u))
        × (t ≡ record u { sent = suc s.sent })
        × (s.aborted ≡ false)
  unfolding send
  send-ok srv q s {a} {t} h =
      let (working, sent) = gate_inv s.aborted _ _ _ a t h in
      let (u, e, k) = answer_inv (srv.fault s.sent) (q (srv.clock s.sent) s) s a t sent in
      (u, e, k, working)

  pub tables_inv :
      (r : Result (A × Db)) (s : Session) (a : A) (u : Session)
      → elim r as (λ _. Result (A × Session)) [
        | ok p ↦ ok (p.0, record s { db = p.1 })
        | err e ↦ err e
      ]
        ≡ ok (a, u)
      → (db : Db) × (r ≡ ok (a, db)) × (u ≡ record s { db = db })
  tables_inv (ok (b, db)) s a u h =
      let same_value : b ≡ a = cc in
      let same_state : record s { db = db } ≡ u = cc in (db, rw same_value, sym same_state)
  tables_inv (err e) s a u h = cc

  -- The same for a statement on the tables.
  pub on_tables-ok :
      (srv : Server) (text : String) (q : ℕ → Db → Result (A × Db)) (s : Session) {a : A}
      {t : Session}
      → relabel text (send srv (on_tables q) s) ≡ (ok a, t)
      → (now : ℕ) × (db : Db) × (q now s.db ≡ ok (a, db))
        × (t ≡ record s { db = db; sent = suc s.sent })
  on_tables-ok srv text q s {a} h =
      let (u, e, k, working) =
        send-ok srv (on_tables q) s (relabel_inv text (send srv (on_tables q) s) _ _ h) in
      let (db, read, same_state) = tables_inv (q (srv.clock s.sent) s.db) s a u e in
      (srv.clock s.sent, db, read, rw same_state at k)

  -- Its effect on the tables alone.
  pub on_tables-db :
      (srv : Server) (text : String) (q : ℕ → Db → Result (A × Db)) (s : Session) {a : A}
      {t : Session}
      → relabel text (send srv (on_tables q) s) ≡ (ok a, t)
      → (now : ℕ) × (q now s.db ≡ ok (a, t.db))
  on_tables-db srv text q s {a} h =
      let (now, db, e, k) = on_tables-ok srv text q s h in
      (now, rw (ap (λ (u : Session). u.db) k) e)

  -- The same for a query.
  pub reading-db :
      (srv : Server) (text : String) (q : Db → A) (s : Session) {a : A} {t : Session}
      → relabel text (send srv (reading q) s) ≡ (ok a, t)
      → (a ≡ q s.db) × (t.db ≡ s.db)
  reading-db srv text q s {a} h =
      let (u, e, k, working) =
        send-ok srv (reading q) s (relabel_inv text (send srv (reading q) s) _ _ h) in
      let same_value : q s.db ≡ a = cc in
      let same_state : s ≡ u = cc in (sym same_value, rw (k, ← same_state))

pub pure-ok :
    {A B : Type 0} {a c : A} {b d : B} {s t : Session}
    → ◌≡◌ {A = Result (A × B) × Session} (ok (a, b), s) (ok (c, d), t)
    → (a ≡ c) × (b ≡ d) × (s ≡ t)
pure-ok h = (cc, cc, cc)

pub fail_if-ok :
    (b : Bool) (e : Error) (s : Session) {a : Unit {0}} {t : Session}
    → fail_if b e s ≡ (ok a, t)
    → (b ≡ false) × (t ≡ s)
unfolding fail_if
fail_if-ok true e s h = cc
fail_if-ok false e s h = (refl, cc)

-- The callback ends well at `a`, and leaves the tables `db'`.
abbrev pub Commits : {A : Type 0} → Tx A → Db → A → Db → Type 0
Commits body db a db' = (s : Session) × (body (begin db) ≡ (ok a, s)) × (db' ≡ s.db)

-- The answer to the commit is lost.
abbrev pub LosesCommit : Server → Type 0
LosesCommit srv = (f : Fault) × (srv.commits ≡ lost f)

-- How a call of `transaction` ends: committed; or with an error, and the old tables or, if the answer
-- to the commit was lost, those that the callback left.
abbrev pub Ends : {A : Type 0} → Server → Tx A → Db → Result A × Db × List ProcessingEvent → Type 0
Ends srv body db (ok a, db', _) = Commits body db a db'
Ends {A} srv body db (err e, db', _) =
    (db' ≡ db) ⊎ (LosesCommit srv × ((a : A) × Commits body db a db'))

module _ {A : Type 0} (srv : Server) (body : Tx A) (db : Db) where
  committed-Ends :
      (c : Commit) (a : A) (s : Session) (l : List ProcessingEvent)
      → srv.commits ≡ c
      → (body (begin db) ≡ (ok a, s))
      → Ends srv body db ((committed srv c a s.db db).0, (committed srv c a s.db db).1, l)
  unfolding committed
  committed-Ends applied a s l e h = (s, h, refl)
  committed-Ends (dropped f) a s l e h = inl refl
  committed-Ends (lost f) a s l e h = inr ((f, e), (a, (s, h, refl)))

  either-Ends :
      (b : Bool) (x y : Result A × Db) (l : List ProcessingEvent)
      → Ends srv body db (x.0, x.1, l)
      → Ends srv body db (y.0, y.1, l)
      → let z = (if b then x else y) in Ends srv body db (z.0, z.1, l)
  either-Ends true x y l p q = p
  either-Ends false x y l p q = q

  finish-Ends :
      (r : Result A) (s : Session) (l : List ProcessingEvent)
      → body (begin db) ≡ (r, s)
      → Ends srv body db ((finish srv db r s).0, (finish srv db r s).1, l)
  unfolding finish
  finish-Ends (err e) s l h = inl refl
  finish-Ends (ok a) s l h =
      either-Ends s.aborted _ (committed srv srv.commits a s.db db) l (inl refl)
        (committed-Ends srv.commits a s l refl h)

  begun-Ends : (f : Option Fault) → Ends srv body db (begun srv f body db)
  unfolding begun
  begun-Ends (some f) = inl refl
  begun-Ends none = let (r, s) = body (begin db) in finish-Ends r s s.claimed refl

  pub transaction-Ends : Ends srv body db (transaction srv body db)
  unfolding transaction
  transaction-Ends = begun-Ends srv.begins

module _ {A : Type 0} (srv : Server) (body : Tx A) (db : Db) where
  ends-keeps :
      (P : Db → Type 0) (x : Result A × Db × List ProcessingEvent)
      → P db
      → ((a : A) (s : Session) → body (begin db) ≡ (ok a, s) → P s.db)
      → Ends srv body db x
      → P x.1
  ends-keeps P (ok a, db', l) h k (s, e, same) = rw same (k a s e)
  ends-keeps P (err e, db', l) h k (inl same) = rw same h
  ends-keeps P (err e, db', l) h k (inr (_, (a, (s, e', same)))) = rw same (k a s e')

  Ends-success :
      (x : Result A × Db × List ProcessingEvent) (a : A)
      → x.0 ≡ ok a
      → Ends srv body db x
      → Commits body db a x.1
  Ends-success (ok b, db', l) a e h =
      let same : b ≡ a = cc in subst (λ c. Commits body db c db') same h
  Ends-success (err _, db', l) a e h = cc

  Ends-failure :
      (x : Result A × Db × List ProcessingEvent) (e : Error)
      → x.0 ≡ err e
      → Ends srv body db x
      → (x.1 ≡ db) ⊎ LosesCommit srv
  Ends-failure (ok b, db', l) a e h = cc
  Ends-failure (err _, db', l) a e (inl same) = inl same
  Ends-failure (err _, db', l) a e (inr (lost_commit, _)) = inr lost_commit

  -- What holds of the old tables and of those that any good end of the callback leaves, holds after
  -- the transaction.
  pub transaction-keeps :
      (P : Db → Type 0)
      → P db
      → ((a : A) (s : Session) → body (begin db) ≡ (ok a, s) → P s.db)
      → P (transaction srv body db).1
  transaction-keeps P h k =
      ends-keeps P (transaction srv body db) h k (transaction-Ends srv body db)

  pub transaction-success :
      (a : A) → (transaction srv body db).0 ≡ ok a → Commits body db a (transaction srv body db).1
  transaction-success a e =
      Ends-success (transaction srv body db) a e (transaction-Ends srv body db)

  pub transaction-failure :
      (e : Error)
      → (transaction srv body db).0 ≡ err e
      → ((transaction srv body db).1 ≡ db) ⊎ LosesCommit srv
  transaction-failure e h =
      Ends-failure (transaction srv body db) e h (transaction-Ends srv body db)
