-- ===== src/Worker/Logging.antt =====
-- internal/worker/worker.go: what `processBatch` logs of the events of a batch.
use usage_billing.Prelude.{
  ℕ, Bytes, codes, same, ◌||◌, Option, none, some, List, [], ◌∷◌, ◌++◌, if◌then◌else◌,
}
use usage_billing.Prelude.Int.{ℤ}
use usage_billing.Errors.{Error}
use usage_billing.RequestId.{for_log}
use usage_billing.Billing.{ProcessingEvent}

-- A record with its arguments, in the order of the call.
pub data LogLine : Type 0 where
  unconfirmed : Bytes → LogLine
  processed : Bytes → ℤ → LogLine
  failed : Bytes → Bytes → ℕ → ℤ → LogLine

abbrev pub outcome_line : Bytes → ProcessingEvent → List LogLine
outcome_line id event =
    if same event.outcome (codes "processed")
    then processed id event.retry_generation ∷ []
    else if same event.outcome (codes "retry_scheduled") || same event.outcome (codes "quarantined")
    then failed id event.outcome event.processing_failures event.retry_generation ∷ []
    else []

-- the body of the loop in `processBatch`
unfoldable pub log_event : Option Error → ProcessingEvent → List LogLine
log_event (some e) event =
    let id = for_log event.request_id in if same id [] then [] else unconfirmed id ∷ []
log_event none event =
    let id = for_log event.request_id in if same id [] then [] else outcome_line id event

unfoldable pub log_batch : Option Error → List ProcessingEvent → List LogLine
log_batch e [] = []
log_batch e (event ∷ events) = log_event e event ++ log_batch e events
