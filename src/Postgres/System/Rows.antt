-- ===== src/Postgres/System/Rows.antt =====
-- Which calls add rows of accepted usage, and which rows.
use usage_billing.Prelude.{
  ℕ, Bytes, List, [], ◌∷◌, All, All-append, ◌≡◌, inl, inr, refl, ap, ◌∙◌, Bool,
}
use usage_billing.Prelude.Int.{ℤ, pos_part}
use usage_billing.Billing.{Event, ProcessingEvent}
use usage_billing.Postgres.Schema.{Db, UsageRow}
use usage_billing.Postgres.Session.{Server, begin}
use usage_billing.Postgres.Session.Inversion.{transaction-keeps}
use usage_billing.Postgres.Statements.{usage_row, select_claim}
use usage_billing.Postgres.Store.{Store, accept_tx, accept, retry_tx, retry}
use usage_billing.Postgres.Store.Admission.{Accepts, accept_tx-Accepts}
use usage_billing.Postgres.Store.Retrying.{Retries, retry_tx-Retries}
use usage_billing.Postgres.Batch.{Claim, batch_tx, process_batch_with_results}
use usage_billing.Postgres.Batch.Effects.{SettlesOne, SettlesEach}
use usage_billing.Postgres.Batch.Commit.{SettlesBatch, batch_tx-SettlesBatch}
use usage_billing.Postgres.System.Steps.{either}

-- An `Accept` adds at most the row of its event.
pub accept-rows :
    (P : UsageRow → Type 0) (store : Store) (srv : Server) (event : Event) (db : Db)
    → All P db.usage
    → ((now : ℕ) → P (usage_row event now))
    → All P (accept srv store event db).1.usage
unfolding accept
accept-rows P store srv event db h p =
    transaction-keeps srv (accept_tx srv store.max_pending event) db (λ d. All P d.usage) h
      (λ a s e. rows (accept_tx-Accepts srv store.max_pending event a.0 a.1 (begin db) s e))
  where
    rows :
        {a : Event × Bool} {db' : Db} → Accepts store.max_pending event a db db' → All P db'.usage
    rows (_, _, inl (_, (_, same))) = rw same h
    rows (_, _, inr (_, (created, _, _, _, _, _, same))) =
        rw same (All-append P db.usage _ h (p created, tt))

record KeepsUsage (db db' : Db) : Type 0 where
  kept : db'.usage ≡ db.usage

KeepsUsage-trans : {a b c : Db} → KeepsUsage a b → KeepsUsage b c → KeepsUsage a c
KeepsUsage-trans p q = record { kept = q.kept ∙ p.kept }

Retries-KeepsUsage :
    (id : Bytes) (generation : ℤ) (retried : Bool) {db db' : Db}
    → Retries id generation retried db db'
    → KeepsUsage db db'
Retries-KeepsUsage id generation retried (inl (_, (_, _, _, _, _, (_, same)))) = record {
  kept = ap (λ (d : Db). d.usage) same;
}
Retries-KeepsUsage id generation retried (inr (_, same, _)) = record {
  kept = ap (λ (d : Db). d.usage) same;
}

-- A `Retry` adds none.
pub retry-usage :
    (srv : Server) (id : Bytes) (generation : ℤ) (db : Db)
    → (retry srv id generation db).1.usage ≡ db.usage
unfolding retry
retry-usage srv id generation db =
    either (λ d. d.usage ≡ db.usage) _ _ _ refl
      (transaction-keeps srv (retry_tx srv id generation) db (λ d. d.usage ≡ db.usage) refl
        (λ a s e.
          (Retries-KeepsUsage id generation a.1
            (retry_tx-Retries srv id generation a.0 a.1 (begin db) s e).1).kept))

SettlesOne-KeepsUsage :
    (claim : Claim) {n : ℕ} {item : ProcessingEvent} {db db' : Db}
    → SettlesOne claim n item db db'
    → KeepsUsage db db'
SettlesOne-KeepsUsage claim (inl (_, _, (_, _, same))) = record {
  kept = ap (λ (d : Db). d.usage) same;
}
SettlesOne-KeepsUsage claim (inr (_, _, _, (_, (_, same)))) = record {
  kept = ap (λ (d : Db). d.usage) same;
}

SettlesEach-KeepsUsage :
    (claims : List Claim) (n : ℕ) (items : List ProcessingEvent) {db db' : Db}
    → SettlesEach claims n items db db'
    → KeepsUsage db db'
SettlesEach-KeepsUsage [] n items (_, _, same) = record { kept = ap (λ (d : Db). d.usage) same }
SettlesEach-KeepsUsage (claim ∷ claims) n items (_, _, n₂, rest, _, first, later, _, _) =
    KeepsUsage-trans (SettlesOne-KeepsUsage claim first)
      (SettlesEach-KeepsUsage claims n₂ rest later)

SettlesBatch-KeepsUsage :
    (claims : List Claim) (p : ℕ × List ProcessingEvent) {db db' : Db}
    → SettlesBatch claims p db db'
    → KeepsUsage db db'
SettlesBatch-KeepsUsage claims p (inl (_, _, (_, _, same))) = record {
  kept = ap (λ (d : Db). d.usage) same;
}
SettlesBatch-KeepsUsage claims p (inr each) = SettlesEach-KeepsUsage claims p.0 p.1 each

-- Nor does a batch.
pub batch-usage :
    (srv : Server) (limit : ℤ) (db : Db)
    → (process_batch_with_results srv limit db).1.usage ≡ db.usage
unfolding process_batch_with_results
batch-usage srv limit db =
    either (λ d. d.usage ≡ db.usage) _ _ _ refl
      (transaction-keeps srv (batch_tx srv (pos_part limit)) db (λ d. d.usage ≡ db.usage) refl
        (λ p s e.
          (SettlesBatch-KeepsUsage (select_claim srv (pos_part limit) db) p
            (batch_tx-SettlesBatch srv (pos_part limit) (begin db) p s e)).kept))
