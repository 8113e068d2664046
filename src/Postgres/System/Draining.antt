-- ===== src/Postgres/System/Draining.antt =====
-- internal/postgres/store.go: a batch on a server that does not fail, while no other session holds a
-- row.
use usage_billing.Prelude.{
  ℕ, suc, ◌+◌, ◌≤◌, min, Bytes, codes, String, List, [], ◌∷◌, map, length, all, Bool, true, false,
  ◌||◌, none, ◌≡◌, refl, ◌∙◌, arith,
}
use usage_billing.Prelude.Int.{pos, ltb_ℤ}
use usage_billing.Errors.{Result, ok}
use usage_billing.Billing.{ProcessingEvent}
use usage_billing.Postgres.Table.{has, delete}
use usage_billing.Postgres.Schema.{Db, pending_key, usage_key}
use usage_billing.Postgres.Session.{
  Server, Session, Tx, on_tables, reading, begin, transaction, begun, finish, committed, attempt,
  relabel, send, answer, savepoint,
}
use usage_billing.Postgres.Statements.{
  select_claim, insert_ledger, post_rows, delete_pending, count_matches,
}
use usage_billing.Postgres.Totals.{count_where, below_three}
use usage_billing.Postgres.Batch.{
  Claim, BatchResult, with_outcome, take_rows, settle_batch, post_batch, batch_tx,
  process_batch_with_results,
}
use usage_billing.Postgres.Batch.Commit.{claim_ids}
use usage_billing.Postgres.Batch.Due.{select_claim-IsClaimed}
use usage_billing.Postgres.Invariant.{IsConsistent}
use usage_billing.Postgres.System.Progress.{healthy, bound-step}

abbrev session : ℕ → Db → List (Bytes × Db) → List ProcessingEvent → Session
session n db points claimed = record {
  db = db;
  savepoints = points;
  aborted = false;
  sent = n;
  claimed = claimed;
}

inserts :
    (ids : List Bytes) (now : ℕ) (db : Db)
    → all (λ id. has usage_key id db.usage) ids ≡ true
    → insert_ledger ids now db ≡ ok (tt, record db { ledger = post_rows now ids db.ledger })
unfolding insert_ledger
inserts ids now db stored = rw (stored) refl

deletes :
    (ids : List Bytes) (now : ℕ) (db : Db)
    → delete_pending ids now db
      ≡ ok (count_matches ids db.pending, record db { pending = delete pending_key ids db.pending })
unfolding delete_pending
deletes ids now db = refl

-- A batch processes as many of the due events as its limit allows, and leaves the others due.
pub record Drains (limit : ℕ) (db : Db) (r : BatchResult × Db) : Type 0 where
  pub error : r.0.error ≡ none
  pub processed : r.0.processed ≡ min limit (count_where below_three db.pending)
  pub left :
      count_where below_three r.1.pending + r.0.processed ≡ count_where below_three db.pending

module _ (clock : ℕ → ℕ) (before : Bytes → Bytes → Bool) where
  abbrev server : Server
  server = healthy clock (λ id. false) before

  sends :
      {A : Type 0} (text : String) (q : ℕ → Db → Result (A × Db)) (n : ℕ) (db db' : Db)
      (points : List (Bytes × Db)) (claimed : List ProcessingEvent) (a : A)
      → q (clock n) db ≡ ok (a, db')
      → relabel text (send server (on_tables q) (session n db points claimed))
        ≡ (ok a, session (suc n) db' points claimed)
  unfolding send answer relabel
  sends text q n db db' points claimed a h = rw (relabel, answer, h) refl

  attempts :
      {A : Type 0} (q : ℕ → Db → Result (A × Db)) (n : ℕ) (db db' : Db) (points : List (Bytes × Db))
      (claimed : List ProcessingEvent) (a : A)
      → q (clock n) db ≡ ok (a, db')
      → attempt (send server (on_tables q)) (session n db points claimed)
        ≡ (ok (ok a), session (suc n) db' points claimed)
  unfolding send answer
  attempts q n db db' points claimed a h = rw (answer, h) refl

  saves :
      (n : ℕ) (db : Db) (points : List (Bytes × Db)) (claimed : List ProcessingEvent)
      → relabel "save ledger batch"
          (savepoint server (codes "ledger_batch") (session n db points claimed))
        ≡ (ok tt, session (suc n) db ((codes "ledger_batch", db) ∷ points) claimed)
  unfolding savepoint send answer relabel
  saves n db points claimed = refl

  -- The tables after a batch of claims is posted at once, by the third statement.
  abbrev settled : List Claim → Db → Db
  settled claims db = record db {
    ledger = post_rows (clock 2) (claim_ids claims) db.ledger;
    pending = delete pending_key (claim_ids claims) db.pending;
  }

  posts_all :
      (claim : Claim) (claims : List Claim) (db : Db) (claimed : List ProcessingEvent)
      → all (λ id. has usage_key id db.usage) (claim_ids (claim ∷ claims)) ≡ true
      → post_batch server (claim ∷ claims) (session 1 db [] claimed) ≡ (
        ok (
          count_matches (claim_ids (claim ∷ claims)) db.pending,
          map (λ c. with_outcome "processed" c.1) (claim ∷ claims),
        ),
        session 4 (settled (claim ∷ claims) db) ((codes "ledger_batch", db) ∷ []) claimed,
      )
  unfolding post_batch settle_batch
  posts_all claim claims db claimed stored =
      let ids = claim_ids (claim ∷ claims) in
      let db₁ = record db { ledger = post_rows (clock 2) ids db.ledger } in
      let points = (codes "ledger_batch", db) ∷ [] in
      bound-step _ (saves 1 db [] claimed) (
        bound-step _
          (attempts (insert_ledger ids) 2 db db₁ points claimed tt
            (inserts ids (clock 2) db stored))
          (bound-step _
            (sends "remove completed pending events" (delete_pending ids) 3 db₁
              (settled (claim ∷ claims) db) points claimed (count_matches ids db.pending)
              (deletes ids (clock 3) db₁))
            refl))

  -- What a batch on these claims returns, and leaves.
  abbrev outcome : List Claim → Db → (ℕ × List ProcessingEvent) × Db
  outcome [] db = ((0, []), db)
  outcome (claim ∷ claims) db = (
    (
      count_matches (claim_ids (claim ∷ claims)) db.pending,
      map (λ c. with_outcome "processed" c.1) (claim ∷ claims),
    ),
    settled (claim ∷ claims) db,
  )

  posts :
      (claims : List Claim) (db : Db) (claimed : List ProcessingEvent)
      → all (λ id. has usage_key id db.usage) (claim_ids claims) ≡ true
      → (s : Session) × (post_batch server claims (session 1 db [] claimed)
          ≡ (ok (outcome claims db).0, s))
        × (s.db ≡ (outcome claims db).1)
        × (s.aborted ≡ false)
  unfolding post_batch
  posts [] db claimed stored = (session 1 db [] claimed, refl, refl, refl)
  posts (claim ∷ claims) db claimed stored =
      (_, posts_all claim claims db claimed stored, refl, refl)

  claims_read :
      (limit : ℕ) (db : Db)
      → relabel "claim pending events"
          (send server (reading (select_claim server limit)) (begin db))
        ≡ (ok (select_claim server limit db), session 1 db [] [])
  unfolding send answer relabel
  claims_read limit db = refl

  taken :
      (claims : List Claim) (db : Db)
      → take_rows none claims (session 1 db [] [])
        ≡ (ok tt, session 1 db [] (map (λ c. c.1) claims))
  unfolding take_rows
  taken claims db = refl

  runs :
      (limit : ℕ) (db : Db)
      → all (λ id. has usage_key id db.usage) (claim_ids (select_claim server limit db)) ≡ true
      → (s : Session) × (batch_tx server limit (begin db)
          ≡ (ok (outcome (select_claim server limit db) db).0, s))
        × (s.db ≡ (outcome (select_claim server limit db) db).1)
        × (s.aborted ≡ false)
  unfolding batch_tx
  runs limit db stored =
      let (s, e, tables, live) = posts (select_claim server limit db) db _ stored in
      (
        s,
        bound-step _ (claims_read limit db)
            (bound-step _ (taken (select_claim server limit db) db) e),
        tables,
        live,
      )

  outcome_lem :
      (limit due : ℕ) (claims : List Claim) (db : Db)
      → length claims ≡ min limit due
      → count_where below_three db.pending ≡ due
      → count_matches (claim_ids claims) db.pending ≡ length claims
      → count_where below_three (delete pending_key (claim_ids claims) db.pending) + length claims
        ≡ count_where below_three db.pending
      → ((outcome claims db).0.0 ≡ min limit due)
        × (count_where below_three (outcome claims db).1.pending + (outcome claims db).0.0 ≡ due)
  outcome_lem limit due [] db size all_due removed left = (size, omega (arith, all_due))
  outcome_lem limit due (claim ∷ claims) db size all_due removed left =
      (removed ∙ size, omega (arith, removed, left, all_due))

  ends_well :
      {A : Type 0} (body : Tx A) (db : Db) (s : Session) (a : A)
      → body (begin db) ≡ (ok a, s)
      → s.aborted ≡ false
      → transaction server body db ≡ (ok a, s.db, s.claimed)
  unfolding transaction begun finish committed
  ends_well body db s a h live = rw (h, live) refl

  -- From consistent tables, while no session holds a row and nothing fails, a batch with a limit from 1
  -- to 1000 ends well, processes as many of the due events as its limit allows, and leaves the others
  -- due.
  pub batch-Drains :
      (q limit : ℕ) (db : Db)
      → IsConsistent q db
      → 1 ≤ limit
      → limit ≤ 1000
      → Drains limit db (process_batch_with_results server (pos limit) db)
  unfolding process_batch_with_results
  batch-Drains q limit db h low high =
      let claimed = select_claim-IsClaimed server q limit db h (λ id. refl) in
      let (s, e, tables, live) = runs limit db claimed.stored in
      let (processed, left) =
        outcome_lem limit _ (select_claim server limit db) db claimed.size refl claimed.removed
          claimed.left in
      let inside : (ltb_ℤ (pos limit) (pos 1) || ltb_ℤ (pos 1000) (pos limit)) ≡ false =
        ground arith in
      rw (inside, ends_well (batch_tx server limit) db s _ e live, tables)
        (record { error = refl; processed = processed; left = left })
