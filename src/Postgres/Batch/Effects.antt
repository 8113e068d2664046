-- ===== src/Postgres/Batch/Effects.antt =====
-- What a committed batch has done to the tables, and what it reports of each claimed event.
use usage_billing.Prelude.{
  ℕ, ◌+◌, Bytes, codes, List, [], ◌∷◌, all, true, Option, none, some, ◌≡◌, ◌⊎◌, inl, inr, ap, sym,
  refl, ◌∙◌, arith,
}
use usage_billing.Errors.{Error, Result, ok, err}
use usage_billing.Billing.{ProcessingEvent}
use usage_billing.Postgres.Table.{has, any_of, delete}
use usage_billing.Postgres.Schema.{Db, usage_key, pending_key, integrity_codes}
use usage_billing.Postgres.Session.{Server, Session, send, on_tables}
use usage_billing.Postgres.Session.Inversion.{bound-ok, on_tables-db}
use usage_billing.Postgres.Session.Savepoints.{
  attempt-ok, send-err, on_tables-keeps, savepoint-ok, rollback_to-ok, release-ok,
}
use usage_billing.Postgres.Statements.{
  insert_ledger, post_rows, delete_pending, count_matches, record_failure,
}
use usage_billing.Postgres.Store.Retrying.{Updates, update_pending_inv}
use usage_billing.Postgres.Batch.Reports.{violations, charged_once, posted_report, failure_report}
use usage_billing.Postgres.Batch.{
  Claim, integrity_code, settle_failed, settle, process_one, process_individually,
}

-- The events move from the queue to the ledger.
abbrev pub posted : List Bytes → ℕ → Db → Db
posted ids now db = record db {
  pending = delete pending_key ids db.pending;
  ledger = post_rows now ids db.ledger;
}

abbrev pub Posts : List Bytes → Db → Db → Type 0
Posts ids db db' =
    (now : ℕ) × (all (λ id. has usage_key id db.usage) ids ≡ true) × (db' ≡ posted ids now db)

-- A failed attempt is recorded under the code of an integrity error, as one more failure.
abbrev pub RecordsFailure : Bytes → Bytes → Db → Db → Type 0
RecordsFailure id code db db' =
    (any_of violations code ≡ true) × Updates id (charged_once code) db db'

-- One event of a batch, what it adds to the count, and its report.
abbrev pub SettlesOne : Claim → ℕ → ProcessingEvent → Db → Db → Type 0
SettlesOne (id, item) n item' db db' =
    ((n ≡ 1) × (item' ≡ posted_report item) × Posts (id ∷ []) db db')
    ⊎ ((code : Bytes) × (n ≡ 0)
        × (item' ≡ failure_report code item)
        × RecordsFailure id code db db')

abbrev pub SettlesEach : List Claim → ℕ → List ProcessingEvent → Db → Db → Type 0
SettlesEach [] n items db db' = (n ≡ 0) × (items ≡ []) × (db' ≡ db)
SettlesEach (claim ∷ claims) n items db db' =
    (n₁ : ℕ) × (item : ProcessingEvent) × (n₂ : ℕ) × (rest : List ProcessingEvent) × (mid : Db)
    × SettlesOne claim n₁ item db mid
    × SettlesEach claims n₂ rest mid db'
    × (n ≡ n₁ + n₂)
    × (items ≡ item ∷ rest)

insert_ledger_inv :
    (ids : List Bytes) (now : ℕ) (db db' : Db)
    → insert_ledger ids now db ≡ ok (tt, db')
    → (all (λ id. has usage_key id db.usage) ids ≡ true)
      × (db' ≡ record db { ledger = post_rows now ids db.ledger })
unfolding insert_ledger
insert_ledger_inv ids now db db' h = ground arith

delete_pending_inv :
    (ids : List Bytes) (now n : ℕ) (db db' : Db)
    → delete_pending ids now db ≡ ok (n, db')
    → (n ≡ count_matches ids db.pending)
      × (db' ≡ record db { pending = delete pending_key ids db.pending })
unfolding delete_pending
delete_pending_inv ids now n db db' h = (cc, cc)

-- Posting, and then the removal from the queue.
pub posts :
    (ids : List Bytes) (t₁ t₂ n : ℕ) (db db₁ db₂ : Db)
    → insert_ledger ids t₁ db ≡ ok (tt, db₁)
    → delete_pending ids t₂ db₁ ≡ ok (n, db₂)
    → (n ≡ count_matches ids db.pending) × Posts ids db db₂
posts ids t₁ t₂ n db db₁ db₂ inserts deletes =
    let (known, same₁) = insert_ledger_inv ids t₁ db db₁ inserts in
    let (count, same₂) = delete_pending_inv ids t₂ n db₁ db₂ deletes in
    (rw same₁ at count, (t₁, known, rw same₁ at same₂))

integrity_code_inv :
    (e : Error) (code : Bytes) → integrity_code e ≡ some code → any_of integrity_codes code ≡ true
unfolding integrity_code
integrity_code_inv e code h = ground arith

item_inv :
    {n m : ℕ} {a b : ProcessingEvent} {s t : Session}
    → ◌≡◌ {A = Result (ℕ × ProcessingEvent) × Session} (ok (n, a), s) (ok (m, b), t)
    → (m ≡ n) × (b ≡ a) × (t ≡ s)
item_inv h = (cc, cc, cc)

-- The branch of an integrity error: back to the savepoint, and the failure is recorded.
settle_failed_inv :
    (srv : Server) (id : Bytes) (item : ProcessingEvent) (e : Error) (code : Option Bytes) (d : Db)
    (points : List (Bytes × Db)) (s : Session) (n : ℕ) (item' : ProcessingEvent) (t : Session)
    → code ≡ integrity_code e
    → s.savepoints ≡ (codes "ledger_event", d) ∷ points
    → settle_failed srv (id, item) e code s ≡ (ok (n, item'), t)
    → SettlesOne (id, item) n item' d t.db
unfolding settle_failed
settle_failed_inv srv id item e none d points s n item' t c p h = cc
settle_failed_inv srv id item e (some code) d points s n item' t c p h =
    let (_, s₁, restores, h₁) = bound-ok h in
    let (_, s₂, records, h₂) = bound-ok h₁ in
    let back : s₁.db ≡ d = rollback_to-ok _ _ _ s d points p restores in
    let (now, record_ok) = on_tables-db _ _ _ _ records in
    let (none_done, report, same) = item_inv h₂ in
    let updates : Updates id (charged_once code) d s₂.db =
      rw back at (update_pending_inv id (record_failure code) s₁.db s₂.db record_ok) in
    inr (
      code,
      none_done,
      report,
      (integrity_code_inv e code (sym c), rw (ap (λ (u : Session). u.db) same) updates),
    )

settle_inv :
    (srv : Server) (id : Bytes) (item : ProcessingEvent) (result : Result (Unit {0})) (d : Db)
    (points : List (Bytes × Db)) (s s₁ : Session) (n : ℕ) (item' : ProcessingEvent) (t : Session)
    → s.db ≡ d
    → s.savepoints ≡ (codes "ledger_event", d) ∷ points
    → send srv (on_tables (insert_ledger (id ∷ []))) s ≡ (result, s₁)
    → settle srv (id, item) result s₁ ≡ (ok (n, item'), t)
    → SettlesOne (id, item) n item' d t.db
unfolding settle
settle_inv srv id item (err e) d points s s₁ n item' t here p inserts h =
    let (same, kept) = send-err srv (on_tables (insert_ledger (id ∷ []))) s inserts in
    settle_failed_inv srv id item e (integrity_code e) d points s₁ n item' t refl (kept ∙ p) h
settle_inv srv id item (ok done) d points s s₁ n item' t here p inserts h =
    let (t₁, inserted, kept) = on_tables-keeps srv (insert_ledger (id ∷ [])) s inserts in
    let (removed, s₂, deletes, h₁) = bound-ok h in
    let (t₂, deleted) = on_tables-db _ _ _ _ deletes in
    let (one, report, same) = item_inv h₁ in
    let (count, posted_one) =
      posts (id ∷ []) t₁ t₂ removed d s₁.db s₂.db (rw here at inserted) deleted in
    inl (one, report, rw (ap (λ (u : Session). u.db) same) posted_one)

pub pair_inv :
    {A : Type 0} {a b : A} {s t : Session}
    → ◌≡◌ {A = Result A × Session} (ok a, s) (ok b, t)
    → (b ≡ a) × (t ≡ s)
pair_inv h = (cc, cc)

SettlesOne-as :
    (claim : Claim) (d : Db) {p q : ℕ × ProcessingEvent} {db db' : Db}
    → q ≡ p
    → db' ≡ db
    → SettlesOne claim p.0 p.1 d db
    → SettlesOne claim q.0 q.1 d db'
SettlesOne-as claim d e k h = rw (e, k) h

process_one_inv :
    (srv : Server) (claim : Claim) (s : Session) (p : ℕ × ProcessingEvent) (t : Session)
    → process_one srv claim s ≡ (ok p, t)
    → SettlesOne claim p.0 p.1 s.db t.db
unfolding process_one
process_one_inv srv claim s p t h =
    let (_, s₁, saves, h₁) = bound-ok h in
    let (result, s₂, tries, h₂) = bound-ok h₁ in
    let (q, s₃, settles, h₃) = bound-ok h₂ in
    let (_, s₄, releases, h₄) = bound-ok h₃ in
    let (same_db, point) = savepoint-ok _ _ _ _ saves in
    let inserts : send srv (on_tables (insert_ledger (claim.0 ∷ []))) s₁ ≡ (result, s₂) =
      attempt-ok (send srv (on_tables (insert_ledger (claim.0 ∷ []))) s₁) tries in
    let (value, same_t) = pair_inv h₄ in
    SettlesOne-as claim s.db value (ap (λ (u : Session). u.db) same_t ∙ release-ok _ _ _ _ releases)
      (settle_inv srv claim.0 claim.1 result s.db s.savepoints s₁ s₂ q.0 q.1 s₃ same_db point
        inserts settles)

SettlesEach-as :
    (claims : List Claim) (d : Db) {p q : ℕ × List ProcessingEvent} {db db' : Db}
    → q ≡ p
    → db' ≡ db
    → SettlesEach claims p.0 p.1 d db
    → SettlesEach claims q.0 q.1 d db'
SettlesEach-as claims d e k h = rw (e, k) h

-- A loop that ends well has settled each claim: posted and taken off the queue, or its failure
-- recorded.
pub process_individually-SettlesEach :
    (srv : Server) (claims : List Claim) (s : Session) (p : ℕ × List ProcessingEvent) (t : Session)
    → process_individually srv claims s ≡ (ok p, t)
    → SettlesEach claims p.0 p.1 s.db t.db
unfolding process_individually
process_individually-SettlesEach srv [] s p t h =
    let (value, same) = pair_inv h in
    SettlesEach-as [] s.db value (ap (λ (u : Session). u.db) same) (refl, refl, refl)
process_individually-SettlesEach srv (claim ∷ claims) s p t h =
    let (one, s₁, first, h₁) = bound-ok h in
    let (rest, s₂, later, h₂) = bound-ok h₁ in
    let (value, same) = pair_inv h₂ in
    SettlesEach-as (claim ∷ claims) s.db value (ap (λ (u : Session). u.db) same) (
      one.0,
      one.1,
      rest.0,
      rest.1,
      s₁.db,
      process_one_inv srv claim s one s₁ first,
      process_individually-SettlesEach srv claims s₁ rest s₂ later,
      refl,
      refl,
    )
