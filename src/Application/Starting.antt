-- ===== src/Application/Starting.antt =====
-- cmd/usage-billing/main.go: `main` and `run`, over what the outside answers while the service starts.
pub mod Exits
use usage_billing.Prelude.{
  ℕ, String, Bytes, Bool, true, false, not, ◌&&◌, Option, none, some, [], ◌∷◌, ◌≡◌, ◌↔◌, refl,
  if◌then◌else◌, arith, Bool-cases,
}
use usage_billing.Errors.{Error, message, Result, ok, err}
use usage_billing.Billing.{Repository, new_service}
use usage_billing.Billing.Service.{Service}
use usage_billing.Postgres.Store
use usage_billing.Postgres.Store.{Store, new_with_queue_limit}
use usage_billing.Telemetry.{Collector, new_collector}
use usage_billing.Http.Handler.{Handler, new_handler}
use usage_billing.Worker
use usage_billing.Config.{Environment, Settings, and_then, ◌>>=◌, ◌>>◌, refuse_if, load_config}
use usage_billing.Config.Starting.{Starts, load_config-Starts}
use usage_billing.Application.Shutdown.{Ending, serve}
use usage_billing.Application.Shutdown.Joins.{IsClean, serve_iff}

-- What the outside answers: whether the connection text parses, the pool is made, the database
-- answers the ping, and the listener opens.
pub record Outside : Type 0 where
  pub parses : Bool
  pub has_pool : Bool
  pub answers : Bool
  pub listens : Bool

pub record Parts (S : Type 0) : Type 0 where
  pub store : Store
  pub service : Service S
  pub worker : Worker.Config
  pub collector : Collector
  pub handler : Handler

-- `if err != nil { return errors.New(text) }`
abbrev pub named : {A : Type 0} → String → Result A → Result A
named text (ok a) = ok a
named text (err e) = err (message text)

-- `run` up to the call of `serve`; the store's methods are an argument.
unfoldable pub set_up :
    {S : Type 0} → (Store → Repository S) → (Bytes → Bytes) → Settings → Outside → Result (Parts S)
set_up repo hash cfg outside = do
  refuse_if (not outside.parses) "invalid database connection configuration"
  refuse_if (not outside.has_pool) "database pool setup failed"
  refuse_if (not outside.answers) "database is unavailable during startup"
  store ←
      named "billing store setup failed"
        (new_with_queue_limit outside.has_pool cfg.max_pending_events)
  service ← named "billing service setup failed" (new_service (some (repo store)) cfg.rate_micros)
  collector ← named "telemetry setup failed" (new_collector true true)
  handler ← named "http handler setup failed" (new_handler hash true cfg.token (true ∷ []))
  refuse_if (not outside.listens) "http listener setup failed"
  ok (record {
    store = store;
    service = service;
    worker = record {
      has_processor = true;
      has_logger = true;
      interval = cfg.worker_interval;
      batch = cfg.worker_batch;
    };
    collector = collector;
    handler = handler;
  })

abbrev pub served : {A : Type 0} → Result A → Ending → Option Error
served (ok parts) x = (serve x).0
served (err e) x = some e

-- The error of `run`
unfoldable pub run :
    {S : Type 0}
    → (Store → Repository S)
    → (Bytes → Bytes)
    → Settings
    → Outside
    → Ending
    → Option Error
run repo hash cfg outside x = served (set_up repo hash cfg outside) x

abbrev pub exit_code : Option Error → ℕ
exit_code none = 0
exit_code (some e) = 1

abbrev pub status :
    {S : Type 0} → (Store → Repository S) → (Bytes → Bytes) → Result Settings → Outside → Ending → ℕ
status repo hash (ok cfg) outside x = exit_code (run repo hash cfg outside x)
status repo hash (err e) outside x = 1

-- The status with which `main` exits
unfoldable pub main :
    {S : Type 0} → (Store → Repository S) → (Bytes → Bytes) → Environment → Outside → Ending → ℕ
main repo hash env outside x = status repo hash (load_config env) outside x
