-- ===== src/Telemetry.antt =====
-- internal/telemetry/metrics.go: the text of the operational metrics. The queue's figures come with
-- their age as a float64, a type of its own here, and `strconv.FormatFloat` is an argument.
pub mod Scrape
mod Tests
use usage_billing.Prelude.{
  ℕ, ◌+◌, ◌%◌, String, Bytes, codes, Bool, true, false, not, ◌||◌, List, [], ◌∷◌, ◌++◌,
  if◌then◌else◌,
}
use usage_billing.Prelude.Int.{ℤ, u64_mod}
use usage_billing.Errors.{Error, message, Result, ok, err}
use usage_billing.Strconv.{format_int}
use usage_billing.Exposition.{text_of, uint_line}
use usage_billing.Worker.Stats.{Stats}

-- `Collector` without its callbacks: the count of failed queries.
pub record Collector : Type 0 where
  pub queue_errors : ℕ

-- `New`; whether each callback is set
unfoldable pub new_collector : Bool → Bool → Result Collector
new_collector queue_stats worker_stats =
    if not queue_stats || not worker_stats
    then err (message "queue and worker metrics callbacks are required")
    else ok (record { queue_errors = 0 })

-- `writeBool` and `writeInt`, without the newline
abbrev bool_line : String → Bool → Bytes
bool_line prefix b = codes prefix ++ (if b then b'1' else b'0') ∷ []

abbrev int_line : String → ℤ → Bytes
int_line prefix n = codes prefix ++ format_int n

module _ {Float : Type 0} (format_float : Float → Bytes) where
  abbrev pub Figures : Type 0
  Figures = ℤ × ℤ × Float

  abbrev pub queue_lines : Result Figures → List Bytes
  queue_lines (err e) = codes "usage_billing_queue_scrape_success 0" ∷ []
  queue_lines (ok (pending, failed, age)) =
      codes "usage_billing_queue_scrape_success 1"
      ∷ codes "# HELP usage_billing_queue_pending_events Durable events waiting for the worker."
      ∷ codes "# TYPE usage_billing_queue_pending_events gauge"
      ∷ int_line "usage_billing_queue_pending_events " pending
      ∷ codes "# HELP usage_billing_queue_failed_events Durable events requiring manual recovery."
      ∷ codes "# TYPE usage_billing_queue_failed_events gauge"
      ∷ int_line "usage_billing_queue_failed_events " failed
      ∷ codes "# HELP usage_billing_queue_oldest_event_age_seconds Age of the oldest pending event."
      ∷ codes "# TYPE usage_billing_queue_oldest_event_age_seconds gauge"
      ∷ (codes "usage_billing_queue_oldest_event_age_seconds " ++ format_float age)
      ∷ []

  abbrev pub worker_lines : Stats → List Bytes
  worker_lines s =
      codes "# HELP usage_billing_worker_running Whether this process owns a running worker loop."
      ∷ codes "# TYPE usage_billing_worker_running gauge"
      ∷ bool_line "usage_billing_worker_running " s.running
      ∷ codes
          "# HELP usage_billing_worker_batch_in_flight Whether a worker batch is currently running."
      ∷ codes "# TYPE usage_billing_worker_batch_in_flight gauge"
      ∷ bool_line "usage_billing_worker_batch_in_flight " s.batch_in_flight
      ∷ codes
          "# HELP usage_billing_worker_batch_attempts_total Worker batch calls completed or cancelled."
      ∷ codes "# TYPE usage_billing_worker_batch_attempts_total counter"
      ∷ uint_line "usage_billing_worker_batch_attempts_total " s.batch_attempts
      ∷ codes
          "# HELP usage_billing_worker_batch_errors_total Worker batch calls that failed for a non-context error."
      ∷ codes "# TYPE usage_billing_worker_batch_errors_total counter"
      ∷ uint_line "usage_billing_worker_batch_errors_total " s.batch_errors
      ∷ codes
          "# HELP usage_billing_worker_batch_cancellations_total Worker batch calls stopped by cancellation or deadline."
      ∷ codes "# TYPE usage_billing_worker_batch_cancellations_total counter"
      ∷ uint_line "usage_billing_worker_batch_cancellations_total " s.batch_cancellations
      ∷ codes
          "# HELP usage_billing_worker_events_processed_total Events durably removed from the pending queue by this process."
      ∷ codes "# TYPE usage_billing_worker_events_processed_total counter"
      ∷ uint_line "usage_billing_worker_events_processed_total " s.events_processed
      ∷ []

  -- `c.queueErrors.Add(1)` where the query failed
  abbrev pub counted : Result Figures → Collector → Collector
  counted (err e) c = record c { queue_errors = (c.queue_errors + 1) % u64_mod }
  counted (ok figures) c = c

  abbrev pub metric_lines : Result Figures → Stats → ℕ → List Bytes
  metric_lines queue s errors =
      codes "# HELP usage_billing_queue_scrape_success Whether the latest queue query succeeded."
      ∷ codes "# TYPE usage_billing_queue_scrape_success gauge"
      ∷ (queue_lines queue
          ++ codes "# HELP usage_billing_queue_scrape_errors_total Failed queue metric queries."
            ∷ codes "# TYPE usage_billing_queue_scrape_errors_total counter"
            ∷ uint_line "usage_billing_queue_scrape_errors_total " errors
            ∷ worker_lines s)

  -- `Metrics`, on what the two callbacks return
  unfoldable pub metrics : Result Figures → Stats → Collector → Bytes × Collector
  metrics queue s c =
      let c' = counted queue c in (text_of (metric_lines queue s c'.queue_errors), c')
