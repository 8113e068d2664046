-- ===== src/Postgres/System/Quarantine.antt =====
-- A batch leaves alone what it may not touch: quarantined events, and rows that others hold.
use usage_billing.Prelude.{
  ℕ, Bytes, same, List, [], ◌∷◌, Bool, Bool-cases, true, false, ◌||◌, some, ◌≡◌, ◌⊎◌, inl, inr,
  refl, ◌∙◌, arith,
}
use usage_billing.Prelude.Int.{ℤ, pos_part}
use usage_billing.Billing.{ProcessingEvent}
use usage_billing.Postgres.Table.{any_of, find, has}
use usage_billing.Postgres.Table.Laws.{find-delete_ne, find-update_ne}
use usage_billing.Postgres.Schema.{Db, PendingRow, pending_key, ledger_key}
use usage_billing.Postgres.Session.{Server, begin}
use usage_billing.Postgres.Session.Inversion.{transaction-keeps}
use usage_billing.Postgres.Statements.{select_claim}
use usage_billing.Postgres.Batch.{Claim, batch_tx, process_batch_with_results}
use usage_billing.Postgres.Batch.Claims.{claimed_row}
use usage_billing.Postgres.Batch.Effects.{Posts, SettlesOne, SettlesEach}
use usage_billing.Postgres.Batch.Reports.{charged_once}
use usage_billing.Postgres.Batch.Commit.{SettlesBatch, claim_ids, batch_tx-SettlesBatch}
use usage_billing.Postgres.Invariant.{IsConsistent}
use usage_billing.Postgres.Invariant.Batches.{has-post_rows}
use usage_billing.Postgres.System.Steps.{either}

-- The queue's row of one event, and whether it is charged, are as before.
pub record IsUntouched (id : Bytes) (db db' : Db) : Type 0 where
  pub queued : find pending_key id db'.pending ≡ find pending_key id db.pending
  pub charge : has ledger_key id db'.ledger ≡ has ledger_key id db.ledger

IsUntouched-refl : (id : Bytes) (db : Db) → IsUntouched id db db
IsUntouched-refl id db = record { queued = refl; charge = refl }

IsUntouched-trans :
    (id : Bytes) {a b c : Db} → IsUntouched id a b → IsUntouched id b c → IsUntouched id a c
IsUntouched-trans id p q = record { queued = q.queued ∙ p.queued; charge = q.charge ∙ p.charge }

Posts-IsUntouched :
    (ids : List Bytes) (id : Bytes) {db db' : Db}
    → any_of ids id ≡ false
    → Posts ids db db'
    → IsUntouched id db db'
Posts-IsUntouched ids id {db} h (now, known, same_db) = rw same_db (record {
  queued = find-delete_ne pending_key ids id db.pending h;
  charge = has-post_rows now ids id db.ledger ∙ rw h (or_false (has ledger_key id db.ledger));
})
  where
    or_false : (b : Bool) → (b || false) ≡ b
    or_false b = ground arith

SettlesOne-IsUntouched :
    (claim : Claim) (id : Bytes) {n : ℕ} {item : ProcessingEvent} {db db' : Db}
    → same claim.0 id ≡ false
    → SettlesOne claim n item db db'
    → IsUntouched id db db'
SettlesOne-IsUntouched claim id h (inl (_, _, posts)) =
    Posts-IsUntouched (claim.0 ∷ []) id (unfold any_of in ground arith) posts
SettlesOne-IsUntouched claim id {db} h (inr (code, _, _, (_, (_, same_db)))) = rw same_db (record {
  queued = find-update_ne pending_key (charged_once code) (λ r. refl) claim.0 id db.pending h;
  charge = refl;
})

apart :
    (x id : Bytes) (ids : List Bytes)
    → any_of (x ∷ ids) id ≡ false
    → (same x id ≡ false) × (any_of ids id ≡ false)
unfolding any_of
apart x id ids h = ground arith

SettlesEach-IsUntouched :
    (claims : List Claim) (id : Bytes) (n : ℕ) (items : List ProcessingEvent) {db db' : Db}
    → any_of (claim_ids claims) id ≡ false
    → SettlesEach claims n items db db'
    → IsUntouched id db db'
SettlesEach-IsUntouched [] id n items h (_, _, same_db) = rw same_db (IsUntouched-refl id _)
SettlesEach-IsUntouched (claim ∷ claims) id n items h
      (n₁, item, n₂, rest, mid, first, later, _, _) =
    let (other, others) = apart claim.0 id (claim_ids claims) h in
    IsUntouched-trans id (SettlesOne-IsUntouched claim id other first)
      (SettlesEach-IsUntouched claims id n₂ rest others later)

SettlesBatch-IsUntouched :
    (claims : List Claim) (id : Bytes) (p : ℕ × List ProcessingEvent) {db db' : Db}
    → any_of (claim_ids claims) id ≡ false
    → SettlesBatch claims p db db'
    → IsUntouched id db db'
SettlesBatch-IsUntouched claims id p h (inl (_, _, posts)) =
    Posts-IsUntouched (claim_ids claims) id h posts
SettlesBatch-IsUntouched claims id p h (inr each) = SettlesEach-IsUntouched claims id p.0 p.1 h each

unclaimed :
    (srv : Server) (limit : ℕ) (db : Db) (id : Bytes) (p : PendingRow) {max_pending : ℕ}
    → IsConsistent max_pending db
    → find pending_key id db.pending ≡ some p
    → (p.processing_failures ≡ 3) ⊎ (srv.locked id ≡ true)
    → any_of (claim_ids (select_claim srv limit db)) id ≡ false
unclaimed srv limit db id p c e h =
    elim (Bool-cases (any_of (claim_ids (select_claim srv limit db)) id)) [
      | inr absent ↦ absent
      | inl claimed ↦
          let (due, free) = claimed_row srv limit db id p c.pending_unique e claimed in
          absurd (ground arith)
    ]

-- A quarantined event, with three failures, and an event whose row another transaction holds are
-- untouched by a batch, however the batch ends: the row stays in the queue as it is, and no charge is
-- added.
pub batch-IsUntouched :
    (srv : Server) (limit : ℤ) (max_pending : ℕ) (db : Db) (id : Bytes) (p : PendingRow)
    → IsConsistent max_pending db
    → find pending_key id db.pending ≡ some p
    → (p.processing_failures ≡ 3) ⊎ (srv.locked id ≡ true)
    → IsUntouched id db (process_batch_with_results srv limit db).1
unfolding process_batch_with_results
batch-IsUntouched srv limit max_pending db id p c e h =
    either (IsUntouched id db) _ _ _ (IsUntouched-refl id db) (
      transaction-keeps srv (batch_tx srv (pos_part limit)) db (IsUntouched id db)
        (IsUntouched-refl id db)
        (λ q s k.
          SettlesBatch-IsUntouched (select_claim srv (pos_part limit) db) id q
            (unclaimed srv (pos_part limit) db id p c e h)
            (batch_tx-SettlesBatch srv (pos_part limit) (begin db) q s k)))
