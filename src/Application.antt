-- ===== src/Application.antt =====
-- cmd/usage-billing/main.go: how `run` puts the parts together. The store is the service's
-- repository, the handler calls the service, and the worker calls the store.
pub mod Charges
pub mod Arrivals
pub mod Effects
pub mod Served
pub mod Accepting
pub mod Shutdown
pub mod Starting
mod Tests
use usage_billing.Prelude.{Bytes, some}
use usage_billing.Prelude.Int.{ℤ}
use usage_billing.Billing.{Repository}
use usage_billing.Billing.Pricing.{IsEntropy}
use usage_billing.Billing.Service.{Service}
use usage_billing.Http.Handler.{Handler, Request, World, serve_http}
use usage_billing.Postgres.{Db, Server, get_event, summarize, process_batch_with_results}
use usage_billing.Postgres.Store
use usage_billing.Postgres.Store.{Store}

-- `var _ billing.Repository = (*Store)(nil)`, on the server of one request
abbrev pub repository : Server → Store → Repository Db
repository srv store = record {
  accept = Store.accept srv store;
  get = get_event srv;
  summary = summarize srv;
  retry = Store.retry srv;
}

abbrev pub service_over : Server → Store → ℤ → Service Db
service_over srv store rate = record { repo = repository srv store; rate = rate }

-- One request, to a handler of any token and counters, or one batch of the worker, each with a server
-- of its own. What the random source delivers, for the identifier of a request and for the event of
-- a request that has none, is 16 bytes.
pub data Step (store : Store) (rate : ℤ) : Db → Db → Type 0 where
  requesting :
      (srv : Server) (w : World) (seed : Bytes) (r : Request) (h : Handler) (db : Db)
      → IsEntropy seed
      → IsEntropy w.entropy
      → Step store rate db (serve_http w h (service_over srv store rate) seed r db).2
  working :
      (srv : Server) (limit : ℤ) (db : Db)
      → Step store rate db (process_batch_with_results srv limit db).1

pub data History (store : Store) (rate : ℤ) (db : Db) : Db → Type 0 where
  here : History store rate db db
  next :
      {mid after : Db}
      → History store rate db mid
      → Step store rate mid after
      → History store rate db after
