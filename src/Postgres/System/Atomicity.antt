-- ===== src/Postgres/System/Atomicity.antt =====
-- internal/postgres/store.go: what a call of `Retry` or a batch leaves where it returns an error.
use usage_billing.Prelude.{ℕ, Bytes, List, some, Bool-cases, ◌||◌, ◌≡◌, ◌⊎◌, inl, inr, refl}
use usage_billing.Prelude.Int.{ℤ, pos, pos_part, max_int64, ltb_ℤ, ◌==ℤ◌}
use usage_billing.Errors.{Error, Result, ok, err}
use usage_billing.Billing.{ProcessingEvent, validate_id}
use usage_billing.Postgres.Schema.{Db}
use usage_billing.Postgres.Session.{Server}
use usage_billing.Postgres.Session.Inversion.{LosesCommit, transaction-failure}
use usage_billing.Postgres.Store.{retry, retry_tx, is_set}
use usage_billing.Postgres.Batch.{batch_tx, process_batch_with_results, reported}
use usage_billing.Postgres.System.History.{wrapped}

-- A `Retry` that returns an error has changed nothing, unless the answer to its commit was lost.
pub retry-atomic :
    (srv : Server) (id : Bytes) (generation : ℤ) (db : Db) (e : Error)
    → (retry srv id generation db).0 ≡ err e
    → ((retry srv id generation db).1 ≡ db) ⊎ LosesCommit srv
unfolding retry
retry-atomic srv id generation db e h =
    elim (Bool-cases
      (is_set (validate_id id) || ltb_ℤ generation (pos 0) || generation ==ℤ pos max_int64)) [
        | inl refused ↦ rw (refused) (inl refl)
        | inr run ↦
            let (e', k) = wrapped "retry failed event" _ e (rw (run) at h) in
            rw (run) (transaction-failure srv (retry_tx srv id generation) db e' k)
      ]

reported-error :
    (r : Result (ℕ × List ProcessingEvent)) (claimed : List ProcessingEvent) (e : Error)
    → (reported r claimed).error ≡ some e
    → (e' : Error) × (r ≡ err e') × ((reported r claimed).processed ≡ 0)
reported-error (ok a) claimed e h = cc
reported-error (err e') claimed e h = (e', refl, refl)

-- A batch that returns an error counts nothing as processed and has changed nothing, unless the answer
-- to its commit was lost.
pub batch-atomic :
    (srv : Server) (limit : ℤ) (db : Db) (e : Error)
    → (process_batch_with_results srv limit db).0.error ≡ some e
    → ((process_batch_with_results srv limit db).0.processed ≡ 0)
      × (((process_batch_with_results srv limit db).1 ≡ db) ⊎ LosesCommit srv)
unfolding process_batch_with_results
batch-atomic srv limit db e h = elim (Bool-cases (ltb_ℤ limit (pos 1) || ltb_ℤ (pos 1000) limit)) [
  | inl refused ↦ rw (refused) (refl, inl refl)
  | inr run ↦
      let (e', k, none_done) = reported-error _ _ e (rw (run) at h) in
      rw (run) (none_done, transaction-failure srv (batch_tx srv (pos_part limit)) db e' k)
]
