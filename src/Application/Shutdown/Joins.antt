-- ===== src/Application/Shutdown/Joins.antt =====
-- cmd/usage-billing/main.go, `serve`: both goroutines are joined, and when the end is clean.
use usage_billing.Prelude.{
  ℕ, String, ◌+◌, Bool, true, false, not, ◌&&◌, ◌||◌, Option, none, some, List, [], ◌∷◌, ◌++◌, ◌≡◌,
  ◌↔◌, refl, if◌then◌else◌, arith,
}
use usage_billing.Errors.{Error, is, canceled}
use usage_billing.Application.Shutdown.{
  First, signalled, http_ended, worker_ended, Ending, Action, cancel_worker, cancel_requests,
  shut_down, receive_http, receive_worker, is_closed, first_result, shutdown_result, http_result,
  worker_result, serve, joined, failing, is_http_done, is_worker_done, first_actions,
  shutdown_actions, receipt,
}

abbrev is_http : Action → Bool
is_http receive_http = true
is_http _ = false

abbrev is_worker : Action → Bool
is_worker receive_worker = true
is_worker _ = false

abbrev is_stop : Action → Bool
is_stop shut_down = true
is_stop _ = false

abbrev is_cancel : Action → Bool
is_cancel cancel_worker = true
is_cancel _ = false

abbrev times : (Action → Bool) → List Action → ℕ
times p [] = 0
times p (a ∷ as') = (if p a then 1 else 0) + times p as'

-- Whether each action of the second kind comes after one of the first.
abbrev follows : (Action → Bool) → (Action → Bool) → List Action → Bool
follows before p [] = true
follows before p (a ∷ as') = if before a then true else not (p a) && follows before p as'

-- After the first action, which may be the receipt of what ended first.
abbrev rest_of : List Action → List Action
rest_of [] = []
rest_of (a ∷ as') = as'

abbrev pub later : First → List Action → List Action
later signalled actions = actions
later _ actions = rest_of actions

-- Each goroutine's result is received once; and one that was not the first to end is received only
-- after the worker was cancelled, or the HTTP server was told to shut down.
pub record IsJoined (first : First) (actions : List Action) : Type 0 where
  pub http : times is_http actions ≡ 1
  pub worker : times is_worker actions ≡ 1
  pub stopped : follows is_stop is_http (later first actions) ≡ true
  pub cancelled : follows is_cancel is_worker (later first actions) ≡ true

joins :
    (first : First) (shutdown : Option Error)
    → IsJoined first (
        first_actions first
        ++ cancel_worker ∷ shutdown_actions shutdown
        ++ receipt (is_http_done first) receive_http
        ++ receipt (is_worker_done first) receive_worker
        ++ cancel_requests ∷ cancel_worker ∷ [])
joins signalled none = record { http = refl; worker = refl; stopped = refl; cancelled = refl }
joins signalled (some e) = record { http = refl; worker = refl; stopped = refl; cancelled = refl }
joins (http_ended _) none = record { http = refl; worker = refl; stopped = refl; cancelled = refl }
joins (http_ended _) (some e) = record {
  http = refl;
  worker = refl;
  stopped = refl;
  cancelled = refl;
}
joins (worker_ended _) none = record {
  http = refl;
  worker = refl;
  stopped = refl;
  cancelled = refl;
}
joins (worker_ended _) (some e) = record {
  http = refl;
  worker = refl;
  stopped = refl;
  cancelled = refl;
}

-- However it ends, `serve` returns only when it has the result of the HTTP server and of the worker,
-- each once, and it waits for one only after it told it to stop.
pub serve-IsJoined : (x : Ending) → IsJoined x.first (serve x).1
unfolding serve
serve-IsJoined x = joins x.first x.shutdown

-- What ended first did so in order.
abbrev pub is_first_clean : First → Bool
is_first_clean signalled = true
is_first_clean (http_ended e) = is_closed e
is_first_clean (worker_ended ended) = ended

-- No error, or the worker's context ended.
abbrev pub is_ended : Option Error → Bool
is_ended none = true
is_ended (some e) = is e canceled

-- A clean end: the context ended, or the HTTP server was closed, or the worker ended with the context;
-- the shutdown met its deadline; and neither goroutine that ended later failed.
pub record IsClean (x : Ending) : Type 0 where
  pub first : is_first_clean x.first ≡ true
  pub shutdown : x.shutdown ≡ none
  pub http : (is_http_done x.first || is_closed x.http) ≡ true
  pub worker : (is_worker_done x.first || is_ended x.worker) ≡ true

joined_iff : (a b : Option Error) → (joined a b ≡ none) ↔ ((a ≡ none) × (b ≡ none))
joined_iff none none = ground arith
joined_iff none (some b) = ground arith
joined_iff (some a) none = ground arith
joined_iff (some a) (some b) = ground arith

failing_iff : (b : Bool) (text : String) → (failing (not b) text ≡ none) ↔ (b ≡ true)
failing_iff true text = ground arith
failing_iff false text = ground arith

first_lem : (f : First) → (first_result f ≡ none) ↔ (is_first_clean f ≡ true)
first_lem signalled = ground arith
first_lem (http_ended e) = failing_iff (is_closed e) _
first_lem (worker_ended b) = failing_iff b _

shutdown_lem : (s c r : Option Error) → (shutdown_result s c r ≡ none) ↔ ((s ≡ none) × (r ≡ none))
shutdown_lem none c r = ground arith
shutdown_lem (some e) none none = ground arith
shutdown_lem (some e) none (some r) = ground arith
shutdown_lem (some e) (some c) none = ground arith
shutdown_lem (some e) (some c) (some r) = ground arith

joined-failing :
    (r : Option Error) (b : Bool) (text : String)
    → (joined r (failing (not b) text) ≡ none) ↔ ((r ≡ none) × (b ≡ true))
joined-failing none true text = ground arith
joined-failing none false text = ground arith
joined-failing (some a) true text = ground arith
joined-failing (some a) false text = ground arith

http_lem :
    (b : Bool) (e r : Option Error)
    → (http_result b e r ≡ none) ↔ ((r ≡ none) × ((b || is_closed e) ≡ true))
http_lem true e r = ground arith
http_lem false e r = joined-failing r (is_closed e) _

worker_lem :
    (b : Bool) (e r : Option Error)
    → (worker_result b e r ≡ none) ↔ ((r ≡ none) × ((b || is_ended e) ≡ true))
worker_lem true e r = ground arith
worker_lem false none r = ground arith
worker_lem false (some e) r = joined-failing r (is e canceled) _

-- `serve` returns no error exactly at a clean end.
pub serve_iff : (x : Ending) → ((serve x).0 ≡ none) ↔ IsClean x
unfolding serve
serve_iff x =
    let w = worker_lem (is_worker_done x.first) x.worker _ in
    let h = http_lem (is_http_done x.first) x.http _ in
    let s = shutdown_lem x.shutdown x.close _ in
    let f = first_lem x.first in
    (
      λ e.
          let (a, b) = w.0 e in
          let (c, d) = h.0 a in
          let (i, j) = s.0 c in record { first = f.0 j; shutdown = i; http = d; worker = b },
      λ c. w.1 (h.1 (s.1 (c.shutdown, f.1 c.first), c.http), c.worker),
    )
