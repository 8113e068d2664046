-- ===== src/Postgres/System.antt =====
-- The store under any sequence of calls. Each call is one transaction and takes its own `Server`, so
-- a step may fail anywhere, lose its commit, or find rows that other sessions hold.
pub mod Steps
pub mod History
pub mod Quarantine
pub mod Progress
pub mod Recovery
pub mod Replays
pub mod Rows
pub mod Draining
pub mod Emptying
pub mod Atomicity
mod Tests
use usage_billing.Prelude.{Bytes, []}
use usage_billing.Prelude.Int.{ℤ}
use usage_billing.Billing.{Event}
use usage_billing.Postgres.Schema.{Db}
use usage_billing.Postgres.Session.{Server}
use usage_billing.Postgres.Store.{Store, accept, retry}
use usage_billing.Postgres.Batch.{process_batch_with_results}

pub data Step (store : Store) : Db → Db → Type 0 where
  accepting : (srv : Server) (event : Event) (db : Db) → Step store db (accept srv store event db).1
  retrying :
      (srv : Server) (id : Bytes) (generation : ℤ) (db : Db)
      → Step store db (retry srv id generation db).1
  processing :
      (srv : Server) (limit : ℤ) (db : Db)
      → Step store db (process_batch_with_results srv limit db).1

pub data Reach (store : Store) (db : Db) : Db → Type 0 where
  here : Reach store db db
  next : {mid after : Db} → Reach store db mid → Step store mid after → Reach store db after

-- The tables as the migrations create them.
abbrev pub empty : Db
empty = record { usage = []; pending = []; ledger = [] }
