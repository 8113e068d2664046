-- ===== src/Postgres/Session/Savepoints.antt =====
-- Failed statements, savepoints and their rollback, on the tables and the savepoints of a session.
use usage_billing.Prelude.{
  ℕ, suc, String, Bytes, same_refl, List, ◌∷◌, Bool, true, false, if◌then◌else◌, ◌⊎◌, inl, inr,
  Option, none, some, ◌≡◌, ap, sym, ◌∙◌,
}
use usage_billing.Errors.{Error, Result, ok, err}
use usage_billing.Postgres.Schema.{Db}
use usage_billing.Postgres.Session.{
  Server, Session, Statement, Fault, on_tables, answer, send, relabel, from_savepoint, restored,
  released, savepoint, rollback_to, release,
}
use usage_billing.Postgres.Session.Inversion.{relabel_inv, send-ok, answer_inv, tables_inv}

pub attempt-ok :
    {A : Type 0} (m : Result A × Session) {r : Result A} {t : Session}
    → ◌≡◌ {A = Result (Result A) × Session} (ok m.0, m.1) (ok r, t)
    → m ≡ (r, t)
attempt-ok (r₀, t₀) h = cc

answer_err :
    {A : Type 0} (f : Option Fault) (r : Result (A × Session)) (s : Session) {e : Error}
    {t : Session}
    → answer f r s ≡ (err e, t)
    → (t.db ≡ s.db) × (t.savepoints ≡ s.savepoints)
unfolding answer
answer_err (some f) r s h = (cc, cc)
answer_err none (err e) s h = (cc, cc)
answer_err none (ok (b, u)) s h = cc

one_of : {X : Type 0} (b : Bool) (x y : X) {z : X} → (if b then x else y) ≡ z → (x ≡ z) ⊎ (y ≡ z)
one_of true x y h = inl h
one_of false x y h = inr h

refused_inv :
    {A : Type 0} (e₀ : Error) (s u : Session) {e : Error} {t : Session}
    → ◌≡◌ {A = Result A × Session} (err e₀, record s { sent = suc u.sent }) (err e, t)
    → (t.db ≡ s.db) × (t.savepoints ≡ s.savepoints)
refused_inv e₀ s u h = (cc, cc)

-- A statement that fails changes neither the tables nor the savepoints.
pub send-err :
    {A : Type 0} (srv : Server) (q : Statement A) (s : Session) {e : Error} {t : Session}
    → send srv q s ≡ (err e, t)
    → (t.db ≡ s.db) × (t.savepoints ≡ s.savepoints)
unfolding send
send-err srv q s {e} {t} h = elim (one_of s.aborted _ _ h) [
  | inl refusal ↦ refused_inv _ s s refusal
  | inr sent ↦ answer_err (srv.fault s.sent) (q (srv.clock s.sent) s) s sent
]

pub on_tables-keeps :
    {A : Type 0} (srv : Server) (q : ℕ → Db → Result (A × Db)) (s : Session) {a : A} {t : Session}
    → send srv (on_tables q) s ≡ (ok a, t)
    → (now : ℕ) × (q now s.db ≡ ok (a, t.db)) × (t.savepoints ≡ s.savepoints)
on_tables-keeps srv q s {a} {t} h =
    let (u, e, k, working) = send-ok srv (on_tables q) s h in
    let (db, read, same_u) = tables_inv (q (srv.clock s.sent) s.db) s a u e in
    (
      srv.clock s.sent,
      read
          ∙ ap (λ (d : Db). ok (a, d))
              (ap (λ (v : Session). v.db) (sym same_u) ∙ ap (λ (v : Session). v.db) (sym k)),
      ap (λ (v : Session). v.savepoints) k ∙ ap (λ (v : Session). v.savepoints) same_u,
    )

pushed :
    (point : Bytes × Db) (s u : Session) (a : Unit {0})
    → ◌≡◌ {A = Result (Unit {0} × Session)}
        (ok (tt, record s { savepoints = point ∷ s.savepoints }))
        (ok (a, u))
    → (u.db ≡ s.db) × (u.savepoints ≡ point ∷ s.savepoints)
pushed point s u a h = (cc, cc)

-- The savepoint holds the tables of its time.
pub savepoint-ok :
    (srv : Server) (text : String) (name : Bytes) (s : Session) {a : Unit {0}} {t : Session}
    → relabel text (savepoint srv name s) ≡ (ok a, t)
    → (t.db ≡ s.db) × (t.savepoints ≡ (name, s.db) ∷ s.savepoints)
unfolding savepoint
savepoint-ok srv text name s h =
    let (u, e, k, working) = send-ok srv _ s (relabel_inv text (savepoint srv name s) _ _ h) in
    let (d, p) = pushed (name, s.db) s u _ e in
    (ap (λ (v : Session). v.db) k ∙ d, ap (λ (v : Session). v.savepoints) k ∙ p)

restored_db :
    (name : Bytes) (s : Session) (d : Db) (points : List (Bytes × Db)) (u : Session) (a : Unit {0})
    → restored name s (some (d, points)) ≡ ok (a, u)
    → u.db ≡ d
unfolding restored
restored_db name s d points u a h = cc

released_db :
    (s : Session) (point : Option (Db × List (Bytes × Db))) (u : Session) (a : Unit {0})
    → released s point ≡ ok (a, u)
    → u.db ≡ s.db
unfolding released
released_db s none u a h = cc
released_db s (some (d, points)) u a h = cc

-- The tables are again those of the latest savepoint of that name.
pub rollback_to-ok :
    (srv : Server) (text : String) (name : Bytes) (s : Session) {a : Unit {0}} {t : Session}
    (d : Db) (points : List (Bytes × Db))
    → s.savepoints ≡ (name, d) ∷ points
    → relabel text (rollback_to srv name s) ≡ (ok a, t)
    → t.db ≡ d
unfolding rollback_to from_savepoint
rollback_to-ok srv text name s {a} {t} d points e h =
    let (u, r, k) =
      answer_inv (srv.fault s.sent) _ s a t (relabel_inv text (rollback_to srv name s) a t h) in
    ap (λ (v : Session). v.db) k ∙ restored_db name s d points u a (rw (e, same_refl name) at r)

pub release-ok :
    (srv : Server) (text : String) (name : Bytes) (s : Session) {a : Unit {0}} {t : Session}
    → relabel text (release srv name s) ≡ (ok a, t)
    → t.db ≡ s.db
unfolding release
release-ok srv text name s {a} {t} h =
    let (u, r, k, working) = send-ok srv _ s (relabel_inv text (release srv name s) a t h) in
    ap (λ (v : Session). v.db) k ∙ released_db s (from_savepoint name s.savepoints) u a r
