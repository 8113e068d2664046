-- ===== src/Application/Shutdown.antt =====
-- cmd/usage-billing/main.go: `serve`, which runs the HTTP server and the worker, and ends them.
pub mod Joins
use usage_billing.Prelude.{
  String, Bool, true, false, not, ◌&&◌, Option, none, some, List, [], ◌∷◌, ◌++◌, if◌then◌else◌,
}
use usage_billing.Errors.{Error, message, join, is, server_closed, canceled}

-- What the `select` meets first: the context's end, the end of the HTTP server with its error, or
-- the end of the worker, with whether the context had ended by then.
pub data First : Type 0 where
  signalled : First
  http_ended : Option Error → First
  worker_ended : Bool → First

-- What happens around one call of `serve`: what comes first, what `Shutdown` and `Close` return, and
-- the results of the two goroutines, of which one may have come first.
pub record Ending : Type 0 where
  pub first : First
  pub shutdown : Option Error
  pub close : Option Error
  pub http : Option Error
  pub worker : Option Error

-- What `serve` does, in order. A receipt takes the result of a goroutine and waits for it.
pub data Action : Type 0 where
  cancel_worker cancel_requests shut_down close_server receive_http receive_worker : Action

-- `errors.Is(err, target)` where the error may be nil
abbrev pub is_closed : Option Error → Bool
is_closed none = false
is_closed (some e) = is e server_closed

-- `errors.Join`, which drops nil errors; a join of three is two joins.
abbrev pub joined : Option Error → Option Error → Option Error
joined none b = b
joined (some a) none = some a
joined (some a) (some b) = some (join a b)

abbrev pub failing : Bool → String → Option Error
failing true text = some (message text)
failing false text = none

-- the `select`
abbrev pub first_result : First → Option Error
first_result signalled = none
first_result (http_ended e) = failing (not (is_closed e)) "http server stopped unexpectedly"
first_result (worker_ended ended) = failing (not ended) "worker stopped unexpectedly"

abbrev pub first_actions : First → List Action
first_actions signalled = []
first_actions (http_ended e) = receive_http ∷ []
first_actions (worker_ended ended) = receive_worker ∷ []

abbrev pub is_http_done : First → Bool
is_http_done (http_ended e) = true
is_http_done _ = false

abbrev pub is_worker_done : First → Bool
is_worker_done (worker_ended ended) = true
is_worker_done _ = false

-- the branch on the error of `Shutdown`
abbrev pub shutdown_result : Option Error → Option Error → Option Error → Option Error
shutdown_result none close result = result
shutdown_result (some e) close result =
    joined (joined result (some (message "http shutdown deadline exceeded"))) close

abbrev pub shutdown_actions : Option Error → List Action
shutdown_actions none = shut_down ∷ []
shutdown_actions (some e) = shut_down ∷ cancel_requests ∷ close_server ∷ []

-- the two receipts at the end
abbrev pub http_result : Bool → Option Error → Option Error → Option Error
http_result true e result = result
http_result false e result =
    joined result (failing (not (is_closed e)) "http server stopped unexpectedly")

abbrev pub worker_failed : Option Error → Bool
worker_failed none = false
worker_failed (some e) = not (is e canceled)

abbrev pub worker_result : Bool → Option Error → Option Error → Option Error
worker_result true e result = result
worker_result false e result = joined result (failing (worker_failed e) "worker shutdown failed")

abbrev pub receipt : Bool → Action → List Action
receipt true a = []
receipt false a = a ∷ []

-- The error of `serve`, and what it did; the last two actions are deferred.
unfoldable pub serve : Ending → Option Error × List Action
serve x = (
  worker_result (is_worker_done x.first) x.worker (
      http_result (is_http_done x.first) x.http
        (shutdown_result x.shutdown x.close (first_result x.first))),
  first_actions x.first
      ++ cancel_worker ∷ shutdown_actions x.shutdown
      ++ receipt (is_http_done x.first) receive_http
      ++ receipt (is_worker_done x.first) receive_worker
      ++ cancel_requests ∷ cancel_worker ∷ [],
)
