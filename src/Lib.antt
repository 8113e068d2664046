-- ===== src/Lib.antt =====
-- usage-billing: a service that accepts usage events over HTTP, prices them, keeps them in
-- PostgreSQL with a queue of pending work, and posts them to a ledger from a polling worker.
--
-- Parts, and the files that model them:
--
--   * Errors: the sentinel errors of internal/billing/types.go, wrapping, joining, `errors.Is`, and a
--     PostgreSQL error by its SQLSTATE. An error's text is kept where the code writes it as a literal.
--   * RequestId: internal/requestid/requestid.go. The random bytes are an argument of `new`; `Context`
--     holds what the package stores into a context.
--   * Billing: internal/billing. `Types` has the records, `Service` the methods of `Service` over any
--     `Repository`, which is a record of functions over the state of its implementation.
--   * Postgres: internal/postgres/store.go over the tables of migrations/*.up.sql. `Schema` has the
--     rows and the CHECK constraints, `Statements` each SQL text as a function on the tables,
--     `Session` transactions and savepoints, `Store` the methods `Accept`, `Get` and `Retry`, `Batch`
--     `ProcessBatchWithResults` with its isolation of failures, `Totals` `Summary` and `QueueStats`.
--     A method's callback is `accept_tx`, `retry_tx` or `batch_tx`, run by `transaction`.
--   * Postgres/Invariant and Postgres/System: what holds of the tables under any sequence of calls.
--   * Worker: internal/worker/worker.go. `Loop` is `Run` over the list of what its `select` meets,
--     `Stats` the statistics, `Logging` the records for the events of a batch.
--   * Http: internal/httpapi/httpapi.go. `Routing` is `route`, `Decoding` `decodeInput` and
--     `decodeRetry`, `Handler` `New`, `serve` with its branches, and `ServeHTTP`. A route is its
--     index into `routeNames`.
--     `Metrics` has the counters and the text of the metrics.
--   * Telemetry: internal/telemetry/metrics.go, its text line by line; Exposition has the lines of such
--     a text and how a reader finds a sample.
--   * Application: cmd/usage-billing/main.go. The root has how `run` puts the parts together and the
--     steps of the whole service; `Arrivals` the requests of such a history and the rows they bring;
--     `Starting` is `main` and `run` over what the outside answers,
--     `Shutdown` is `serve` over what its `select` meets and how its goroutines end.
--   * Loadtest: cmd/loadtest/main.go. The root has the configuration and the requests, `Clients` the
--     clients and the monitor as turns in the order in which they reach the service, `Run` the run and
--     `main`, `Percentile` the nearest rank in the arithmetic of float64.
--   * Config: cmd/usage-billing/config.go; Config/Starting what main.go builds from it.
--   * Strconv: strconv.ParseInt and FormatInt, which the numbers of a summary and the configuration
--     use. Prelude: shared names, int64 arithmetic with its wrap-around, lists and byte strings.
--
-- How they interact: the handler calls the service on what a body decodes to; the service hands one
-- priced event to the repository, which the store implements by one transaction; the worker's
-- attempts are calls of `process_batch_with_results`.
--
-- The database server and the driver are not under this repository. What they contribute to a call
-- is the record `Server` of Postgres/Session, an argument of every operation of the store: which
-- statements fail and how, the clock, the order of texts in the collation, the rows that other
-- sessions hold, a connection that breaks while rows are read, and how the commit and the rollback
-- end. The theorems hold for every such record, but for
-- those that say that nothing fails. In the same way `World` of Http/Handler has what
-- the handler takes from sha256, encoding/json, mime and the readiness callback, and `Environment`
-- of Config the variables, `time.ParseDuration` and `net.SplitHostPort`.
--
-- Bounds: int64 values are integers with the wrap-around written out; the counters of the worker
-- are taken modulo 2^64; `integer` and `bigint` columns are unbounded here, and the constraints and
-- the guards of the code keep them in range. There are two fuels: that of the digits of a number,
-- where the number itself is enough, and that of the last bit of a float64 product, where 64 doublings
-- are enough for a product below 2^117. Times are microseconds in the store and nanoseconds in the
-- configurations; the age that `QueueStats` returns is in microseconds too. Latencies are of a type of
-- their own with an order.
--
-- Not modelled: a call is one step, so the interleaving of statements of different transactions is
-- not; the store's comments rely on an advisory lock and row locks there. Timeouts, logs of requests
-- and of whole batches, the constants of the connection pool, of the HTTP server and of the load
-- test's HTTP client, and the rates that the load test only displays are left out.
pub mod Prelude
pub mod Errors
pub mod Strconv
pub mod Exposition
pub mod RequestId
pub mod Billing
pub mod Postgres
pub mod Worker
pub mod Telemetry
pub mod Loadtest
pub mod Config
pub mod Http
pub mod Application
