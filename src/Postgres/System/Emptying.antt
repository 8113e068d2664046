-- ===== src/Postgres/System/Emptying.antt =====
-- internal/postgres/store.go: how many batches the queue takes to run dry.
use usage_billing.Prelude.{Bool, false, ℕ, zero, suc, ◌*◌, ◌≤◌, Bytes, ◌≡◌, arith}
use usage_billing.Prelude.Int.{pos}
use native.Mathlib.Nat.{suc-mul, zero-mul}
use usage_billing.Postgres.Schema.{Db}
use usage_billing.Postgres.Totals.{count_where, below_three}
use usage_billing.Postgres.Batch.{BatchResult, process_batch_with_results}
use usage_billing.Postgres.Invariant.{IsConsistent}
use usage_billing.Postgres.System.{here, next, processing}
use usage_billing.Postgres.System.Steps.{Reach-IsConsistent}
use usage_billing.Postgres.System.Progress.{healthy}
use usage_billing.Postgres.System.Draining.{Drains, batch-Drains}

module _ (before : Bytes → Bytes → Bool) (clock : ℕ → ℕ → ℕ) (limit : ℕ) where
  abbrev batch : ℕ → Db → BatchResult × Db
  batch n db = process_batch_with_results (healthy (clock n) (λ id. false) before) (pos limit) db

  -- So many batches, one after the other, each with its own times.
  unfoldable pub batches : ℕ → Db → Db
  batches zero db = db
  batches (suc n) db = batches n (batch n db).1

  fewer :
      (n : ℕ) (db : Db) (r : BatchResult × Db)
      → Drains limit db r
      → count_where below_three db.pending ≤ suc n * limit
      → count_where below_three r.1.pending ≤ n * limit
  fewer n db r d h = omega (arith, d.processed, d.left, suc-mul n limit)

  -- From consistent tables, while no session holds a row and nothing fails, n batches of a limit from 1
  -- to 1000 leave no event due, where no more than n times the limit were.
  pub batches_empty :
      (q n : ℕ) (db : Db)
      → IsConsistent q db
      → 1 ≤ limit
      → limit ≤ 1000
      → count_where below_three db.pending ≤ n * limit
      → count_where below_three (batches n db).pending ≡ 0
  unfolding batches
  batches_empty q zero db h low high few = omega (arith, zero-mul limit)
  batches_empty q (suc n) db h low high few =
      batches_empty q n (batch n db).1
        (Reach-IsConsistent {store = record { max_pending = q }} h
          (next here (processing _ (pos limit) db)))
        low high (fewer n db (batch n db) (batch-Drains (clock n) before q limit db h low high) few)
