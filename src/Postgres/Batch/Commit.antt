-- ===== src/Postgres/Batch/Commit.antt =====
-- The callback of a batch as a whole: bulk posting, or event by event.
use usage_billing.Prelude.{
  ℕ, Bytes, codes, List, [], ◌∷◌, map, Option, none, some, ◌≡◌, ◌⊎◌, inl, inr, ap, refl, ◌∙◌,
}
use usage_billing.Errors.{Error, Result, ok, err}
use usage_billing.Billing.{ProcessingEvent}
use usage_billing.Postgres.Schema.{Db}
use usage_billing.Postgres.Session.{Server, Session, Fault, send, on_tables}
use usage_billing.Postgres.Session.Inversion.{bound-ok, on_tables-db, reading-db}
use usage_billing.Postgres.Session.Savepoints.{
  attempt-ok, send-err, on_tables-keeps, savepoint-ok, rollback_to-ok,
}
use usage_billing.Postgres.Statements.{select_claim, insert_ledger, count_matches}
use usage_billing.Postgres.Batch.{
  Claim, integrity_code, isolate, settle_batch, take_rows, post_batch, batch_tx,
}
use usage_billing.Postgres.Batch.Reports.{posted_report}
use usage_billing.Postgres.Batch.Effects.{
  Posts, SettlesEach, pair_inv, posts, process_individually-SettlesEach,
}

abbrev pub claim_ids : List Claim → List Bytes
claim_ids claims = map (λ c. c.0) claims

-- All claims are posted at once, or each is settled by itself.
abbrev pub SettlesBatch : List Claim → ℕ × List ProcessingEvent → Db → Db → Type 0
SettlesBatch claims (n, items) db db' =
    ((n ≡ count_matches (claim_ids claims) db.pending)
      × (items ≡ map (λ c. posted_report c.1) claims)
      × Posts (claim_ids claims) db db')
    ⊎ SettlesEach claims n items db db'

SettlesBatch-as :
    (claims : List Claim) (d : Db) {p q : ℕ × List ProcessingEvent} {db db' : Db}
    → q ≡ p
    → db' ≡ db
    → SettlesBatch claims p d db
    → SettlesBatch claims q d db'
SettlesBatch-as claims d e k h = rw (e, k) h

isolate_inv :
    (srv : Server) (claims : List Claim) (e : Error) (code : Option Bytes) (d : Db)
    (points : List (Bytes × Db)) (s : Session) (p : ℕ × List ProcessingEvent) (t : Session)
    → s.savepoints ≡ (codes "ledger_batch", d) ∷ points
    → isolate srv claims e code s ≡ (ok p, t)
    → SettlesEach claims p.0 p.1 d t.db
unfolding isolate
isolate_inv srv claims e none d points s p t k h = cc
isolate_inv srv claims e (some code) d points s p t k h =
    let (_, s₁, restores, h₁) = bound-ok h in
    let back : s₁.db ≡ d = rollback_to-ok _ _ _ s d points k restores in
    rw back at (process_individually-SettlesEach srv claims s₁ p t h₁)

settle_batch_inv :
    (srv : Server) (claims : List Claim) (result : Result (Unit {0})) (d : Db)
    (points : List (Bytes × Db)) (s s₁ : Session) (p : ℕ × List ProcessingEvent) (t : Session)
    → s.db ≡ d
    → s.savepoints ≡ (codes "ledger_batch", d) ∷ points
    → send srv (on_tables (insert_ledger (claim_ids claims))) s ≡ (result, s₁)
    → settle_batch srv claims result s₁ ≡ (ok p, t)
    → SettlesBatch claims p d t.db
unfolding settle_batch
settle_batch_inv srv claims (err e) d points s s₁ p t here k inserts h =
    let (same, kept) = send-err srv (on_tables (insert_ledger (claim_ids claims))) s inserts in
    inr (isolate_inv srv claims e (integrity_code e) d points s₁ p t (kept ∙ k) h)
settle_batch_inv srv claims (ok done) d points s s₁ p t here k inserts h =
    let (t₁, inserted, kept) = on_tables-keeps srv (insert_ledger (claim_ids claims)) s inserts in
    let (removed, s₂, deletes, h₁) = bound-ok h in
    let (t₂, deleted) = on_tables-db _ _ _ _ deletes in
    let (value, same) = pair_inv h₁ in
    let (count, posted_all) =
      posts (claim_ids claims) t₁ t₂ removed d s₁.db s₂.db (rw here at inserted) deleted in
    SettlesBatch-as claims d value (ap (λ (u : Session). u.db) same) (inl (count, refl, posted_all))

post_batch_inv :
    (srv : Server) (claims : List Claim) (s : Session) (p : ℕ × List ProcessingEvent) (t : Session)
    → post_batch srv claims s ≡ (ok p, t)
    → SettlesBatch claims p s.db t.db
unfolding post_batch
post_batch_inv srv [] s p t h =
    let (value, same) = pair_inv h in
    SettlesBatch-as [] s.db value (ap (λ (u : Session). u.db) same) (inr (refl, refl, refl))
post_batch_inv srv (claim ∷ claims) s p t h =
    let (_, s₁, saves, h₁) = bound-ok h in
    let (result, s₂, tries, h₂) = bound-ok h₁ in
    let (same_db, point) = savepoint-ok _ _ _ _ saves in
    let inserts : send srv (on_tables (insert_ledger (claim_ids (claim ∷ claims)))) s₁
        ≡ (result, s₂) =
      attempt-ok (send srv (on_tables (insert_ledger (claim_ids (claim ∷ claims)))) s₁) tries in
    settle_batch_inv srv (claim ∷ claims) result s.db s.savepoints s₁ s₂ p t same_db point inserts
      h₂

take_rows_inv :
    (cut : Option (ℕ × Fault)) (claims : List Claim) (s : Session) {a : Unit {0}} {t : Session}
    → take_rows cut claims s ≡ (ok a, t)
    → t.db ≡ s.db
unfolding take_rows
take_rows_inv none claims s h = cc
take_rows_inv (some (n, f)) claims s h = cc

-- A callback of a batch that ends well has settled all the rows that it claims from the tables as it
-- found them: all posted to the ledger and removed from the queue, and reported as processed; or each
-- by itself, posted so, or charged with one failure more than it had under the code of an integrity
-- error, and reported as quarantined at the third failure and as to be retried below.
pub batch_tx-SettlesBatch :
    (srv : Server) (limit : ℕ) (s : Session) (p : ℕ × List ProcessingEvent) (t : Session)
    → batch_tx srv limit s ≡ (ok p, t)
    → SettlesBatch (select_claim srv limit s.db) p s.db t.db
unfolding batch_tx
batch_tx-SettlesBatch srv limit s p t h =
    let (claims, s₁, selects, h₁) = bound-ok h in
    let (_, s₂, reads, h₂) = bound-ok h₁ in
    let (value, same₁) = reading-db _ _ _ _ selects in
    let same₂ : s₂.db ≡ s.db = take_rows_inv srv.cut claims s₁ reads ∙ same₁ in
    rw (value, same₂) at (post_batch_inv srv claims s₂ p t h₂)
