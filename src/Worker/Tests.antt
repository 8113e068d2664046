-- ===== src/Worker/Tests.antt =====
-- Concrete runs of the worker's loop.
use usage_billing.Prelude.{All, codes, true, false, none, some, List, [], ◌∷◌, ◌≡◌, refl, arith}
use usage_billing.Prelude.Int.{pos}
use usage_billing.Errors.{sentinel, message, canceled}
use usage_billing.Worker.Stats.{Stats}
use usage_billing.Worker.Loop.{Config, Attempt, Round, fired, armed, run, is_invalid}
use usage_billing.Worker.Backoff.{stands, run-stands}
use usage_billing.Billing.{ProcessingEvent}
use usage_billing.Worker.Logging.{log_batch}
use usage_billing.Worker.Redaction.{IsSafe, log_batch-IsSafe}
use usage_billing.Worker.Counters.{Counts, made, run-Counts}

abbrev config : Config
config = record {
  has_processor = true;
  has_logger = true;
  interval = pos 20000000000;
  batch = pos 10;
}

abbrev idle : Stats
idle = record {
  running = false;
  batch_in_flight = false;
  batch_attempts = 18446744073709551615;
  batch_errors = 0;
  batch_cancellations = 0;
  events_processed = 0;
}

abbrev success : Attempt
success = record { count = pos 4; error = none; context_error = none; ended = false }

abbrev failure : Attempt
failure = record {
  count = pos 0;
  error = some (message "down");
  context_error = none;
  ended = false;
}

abbrev timeout : Attempt
timeout = record {
  count = pos 0;
  error = some (sentinel canceled);
  context_error = none;
  ended = false;
}

abbrev rounds : List Round
rounds = fired failure ∷ fired success ∷ fired failure ∷ fired timeout ∷ []

-- 20 seconds, doubled beyond the cap of 30.
run_delay : stands 20000000000 0 rounds ≡ armed (pos 30000000000)
run_delay = refl

run-stands_example : (run config rounds idle).1 ≡ stands 20000000000 0 rounds
unfolding is_invalid
run-stands_example = run-stands config 20000000000 rounds idle refl refl refl

run-Counts_example : Counts (made rounds) idle (run config rounds idle).2
unfolding is_invalid
run-Counts_example = run-Counts config rounds idle refl refl (record {
  attempts = omega arith;
  errors = omega arith;
  cancellations = omega arith;
  processed = omega arith;
})

abbrev claimed : List ProcessingEvent
claimed =
    record {
      request_id = codes "0123456789abcdef0123456789abcdef";
      outcome = codes "quarantined";
      failure_code = codes "23514";
      processing_failures = 3;
      retry_generation = pos 0;
    }
    ∷ []

log_batch-IsSafe_example : All (IsSafe none) (log_batch none claimed)
log_batch-IsSafe_example = log_batch-IsSafe none claimed
