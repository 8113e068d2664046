-- ===== src/Telemetry/Tests.antt =====
-- A scrape while the queue is out of reach, and one that finds three events.
use usage_billing.Prelude.{ℕ, ◌%◌, true, false, List, [], ◌∷◌, refl}
use usage_billing.Prelude.Int.{ℤ, pos, u64_mod}
use usage_billing.Errors.{Result, ok, err, message}
use usage_billing.Strconv.{format_uint}
use usage_billing.Exposition.Lines.{is_line-format_uint}
use usage_billing.Worker.Stats.{Stats}
use usage_billing.Telemetry.{Collector, metrics, new_collector}
use usage_billing.Telemetry.Scrape.{
  ShowsQueue, ShowsStats, Scrape, scraped, failed_queries, metrics-Shows,
}

abbrev stats : Stats
stats = record {
  running = true;
  batch_in_flight = false;
  batch_attempts = 12;
  batch_errors = 1;
  batch_cancellations = 0;
  events_processed = 40;
}

-- Ages in whole seconds.
abbrev queue : Result (ℤ × ℤ × ℕ)
queue = ok (pos 3, pos 1, 90)

abbrev collector : Collector
collector = record { queue_errors = 0 }

-- A scrape that found the queue, after one that did not.
abbrev earlier : List (Scrape ℕ)
earlier = (queue, stats) ∷ (err (message "no queue"), stats) ∷ []

metrics-Shows_example :
    let text = (metrics format_uint queue stats (scraped format_uint collector earlier)).0 in
    ShowsQueue format_uint queue text
    × ShowsStats stats (failed_queries ((queue, stats) ∷ earlier) % u64_mod) text
unfolding new_collector
metrics-Shows_example =
    metrics-Shows format_uint collector earlier queue stats is_line-format_uint refl
