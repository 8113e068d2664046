-- ===== src/Telemetry/Scrape.antt =====
-- What a scraper reads in the operational metrics.
use usage_billing.Prelude.{
  ℕ, Bytes, codes, Bool, true, false, Option, some, none, List, [], ◌∷◌, all, ◌≡◌, refl, ◌∙◌, suc,
  ◌+◌, ◌%◌, ap, sym, arith, if◌then◌else◌,
}
use usage_billing.Prelude.Int.{ℤ, u64_mod}
use usage_billing.Errors.{Result, ok, err}
use usage_billing.Strconv.{format_int, format_uint}
use usage_billing.Exposition.{text_of, sample, sample_in, after_prefix}
use usage_billing.Exposition.Lines.{
  is_line, is_line-format_uint, is_line-format_int, sample-text_of,
}
use usage_billing.Worker.Stats.{Stats}
use usage_billing.Telemetry.{Collector, Figures, queue_lines, metric_lines, metrics, new_collector}

abbrev digit : Bool → Bytes
digit b = (if b then b'1' else b'0') ∷ []

-- What the text says of the queue: its figures, or that the query failed.
abbrev pub ShowsQueue : {Float : Type 0} → (Float → Bytes) → Result (ℤ × ℤ × Float) → Bytes → Type 0
ShowsQueue format_float (ok (pending, failed, age)) text =
    (sample (codes "usage_billing_queue_scrape_success") text ≡ some (codes "1"))
    × (sample (codes "usage_billing_queue_pending_events") text ≡ some (format_int pending))
    × (sample (codes "usage_billing_queue_failed_events") text ≡ some (format_int failed))
    × (sample (codes "usage_billing_queue_oldest_event_age_seconds") text ≡ some (format_float age))
ShowsQueue format_float (err e) text =
    (sample (codes "usage_billing_queue_scrape_success") text ≡ some (codes "0"))
    × (sample (codes "usage_billing_queue_pending_events") text ≡ none)
    × (sample (codes "usage_billing_queue_failed_events") text ≡ none)
    × (sample (codes "usage_billing_queue_oldest_event_age_seconds") text ≡ none)

-- Every statistic of the worker, and the count of failed queries.
pub record ShowsStats (s : Stats) (errors : ℕ) (text : Bytes) : Type 0 where
  pub running : sample (codes "usage_billing_worker_running") text ≡ some (digit s.running)
  pub in_flight :
      sample (codes "usage_billing_worker_batch_in_flight") text ≡ some (digit s.batch_in_flight)
  pub attempts :
      sample (codes "usage_billing_worker_batch_attempts_total") text
      ≡ some (format_uint s.batch_attempts)
  pub failures :
      sample (codes "usage_billing_worker_batch_errors_total") text
      ≡ some (format_uint s.batch_errors)
  pub cancellations :
      sample (codes "usage_billing_worker_batch_cancellations_total") text
      ≡ some (format_uint s.batch_cancellations)
  pub processed :
      sample (codes "usage_billing_worker_events_processed_total") text
      ≡ some (format_uint s.events_processed)
  pub queries :
      sample (codes "usage_billing_queue_scrape_errors_total") text ≡ some (format_uint errors)

ShowsStats-at :
    (s : Stats) {n m : ℕ} {text : Bytes} → n ≡ m → ShowsStats s n text → ShowsStats s m text
ShowsStats-at s e h = rw e at h

module _ {Float : Type 0} (format_float : Float → Bytes)
    (floats : (x : Float) → is_line (format_float x) ≡ true) where
  queue_lines-is_line :
      (queue : Result (Figures format_float)) → all is_line (queue_lines format_float queue) ≡ true
  queue_lines-is_line (err e) = refl
  queue_lines-is_line (ok (pending, failed, age)) =
      rw (is_line-format_int pending, is_line-format_int failed, floats age) refl

  digit-is_line : (b : Bool) → is_line (digit b) ≡ true
  digit-is_line true = refl
  digit-is_line false = refl

  metric_lines-is_line :
      (queue : Result (Figures format_float)) (s : Stats) (errors : ℕ)
      → all is_line (metric_lines format_float queue s errors) ≡ true
  metric_lines-is_line (err e) s errors =
      rw
        (
          is_line-format_uint errors,
          digit-is_line s.running,
          digit-is_line s.batch_in_flight,
          is_line-format_uint s.batch_attempts,
          is_line-format_uint s.batch_errors,
          is_line-format_uint s.batch_cancellations,
          is_line-format_uint s.events_processed,
        )
        refl
  metric_lines-is_line (ok (pending, failed, age)) s errors =
      rw
        (
          is_line-format_int pending,
          is_line-format_int failed,
          floats age,
          is_line-format_uint errors,
          digit-is_line s.running,
          digit-is_line s.batch_in_flight,
          is_line-format_uint s.batch_attempts,
          is_line-format_uint s.batch_errors,
          is_line-format_uint s.batch_cancellations,
          is_line-format_uint s.events_processed,
        )
        refl

  module _ (queue : Result (Figures format_float)) (s : Stats) (errors : ℕ) where
    reads :
        (name : Bytes) {o : Option Bytes}
        → sample_in name (metric_lines format_float queue s errors) ≡ o
        → sample name (text_of (metric_lines format_float queue s errors)) ≡ o
    reads name e = sample-text_of name _ (metric_lines-is_line queue s errors) ∙ e

  shows_queue :
      (queue : Result (Figures format_float)) (s : Stats) (errors : ℕ)
      → ShowsQueue format_float queue (text_of (metric_lines format_float queue s errors))
  unfolding sample_in after_prefix
  shows_queue (ok (pending, failed, age)) s errors = (
    reads (ok (pending, failed, age)) s errors (codes "usage_billing_queue_scrape_success") refl,
    reads (ok (pending, failed, age)) s errors (codes "usage_billing_queue_pending_events") refl,
    reads (ok (pending, failed, age)) s errors (codes "usage_billing_queue_failed_events") refl,
    reads (ok (pending, failed, age)) s errors
        (codes "usage_billing_queue_oldest_event_age_seconds") refl,
  )
  shows_queue (err e) s errors = (
    reads (err e) s errors (codes "usage_billing_queue_scrape_success") refl,
    reads (err e) s errors (codes "usage_billing_queue_pending_events") refl,
    reads (err e) s errors (codes "usage_billing_queue_failed_events") refl,
    reads (err e) s errors (codes "usage_billing_queue_oldest_event_age_seconds") refl,
  )

  shows_stats :
      (queue : Result (Figures format_float)) (s : Stats) (errors : ℕ)
      → ShowsStats s errors (text_of (metric_lines format_float queue s errors))
  unfolding sample_in after_prefix
  shows_stats (ok (pending, failed, age)) s errors = record {
    running =
        reads (ok (pending, failed, age)) s errors (codes "usage_billing_worker_running") refl;
    in_flight =
        reads (ok (pending, failed, age)) s errors (codes "usage_billing_worker_batch_in_flight")
          refl;
    attempts =
        reads (ok (pending, failed, age)) s errors
          (codes "usage_billing_worker_batch_attempts_total") refl;
    failures =
        reads (ok (pending, failed, age)) s errors (codes "usage_billing_worker_batch_errors_total")
          refl;
    cancellations =
        reads (ok (pending, failed, age)) s errors
          (codes "usage_billing_worker_batch_cancellations_total") refl;
    processed =
        reads (ok (pending, failed, age)) s errors
          (codes "usage_billing_worker_events_processed_total") refl;
    queries =
        reads (ok (pending, failed, age)) s errors (codes "usage_billing_queue_scrape_errors_total")
          refl;
  }
  shows_stats (err e) s errors = record {
    running = reads (err e) s errors (codes "usage_billing_worker_running") refl;
    in_flight = reads (err e) s errors (codes "usage_billing_worker_batch_in_flight") refl;
    attempts = reads (err e) s errors (codes "usage_billing_worker_batch_attempts_total") refl;
    failures = reads (err e) s errors (codes "usage_billing_worker_batch_errors_total") refl;
    cancellations =
        reads (err e) s errors (codes "usage_billing_worker_batch_cancellations_total") refl;
    processed = reads (err e) s errors (codes "usage_billing_worker_events_processed_total") refl;
    queries = reads (err e) s errors (codes "usage_billing_queue_scrape_errors_total") refl;
  }

-- A scrape: what the query of the queue gives, and the statistics of the worker.
abbrev pub Scrape : Type 0 → Type 0
Scrape Float = Result (ℤ × ℤ × Float) × Stats

-- How many queries failed.
abbrev pub failed_queries : {Float : Type 0} → List (Scrape Float) → ℕ
failed_queries [] = 0
failed_queries ((err e, s) ∷ scrapes) = suc (failed_queries scrapes)
failed_queries ((ok figures, s) ∷ scrapes) = failed_queries scrapes

module _ {Float : Type 0} (format_float : Float → Bytes) where
  -- The collector after scrapes, the last one first.
  abbrev pub scraped : Collector → List (Scrape Float) → Collector
  scraped c [] = c
  scraped c ((queue, s) ∷ earlier) = (metrics format_float queue s (scraped c earlier)).1

  start_at_zero : (c : Collector) → new_collector true true ≡ ok c → c.queue_errors ≡ 0
  unfolding new_collector
  start_at_zero c h =
      let start : record { queue_errors = 0 } ≡ c = cc in
      ap (λ (x : Collector). x.queue_errors) (sym start)

  one_more : (n m : ℕ) → n ≡ m % u64_mod → (n + 1) % u64_mod ≡ suc m % u64_mod
  one_more n m h = omega arith

  scraped-failed_queries :
      (c : Collector) (scrapes : List (Scrape Float))
      → c.queue_errors ≡ 0
      → (scraped c scrapes).queue_errors ≡ failed_queries scrapes % u64_mod
  unfolding metrics
  scraped-failed_queries c [] h = h
  scraped-failed_queries c ((err e, s) ∷ earlier) h =
      one_more (scraped c earlier).queue_errors (failed_queries earlier)
        (scraped-failed_queries c earlier h)
  scraped-failed_queries c ((ok figures, s) ∷ earlier) h = scraped-failed_queries c earlier h

-- The collector that `New` makes with both callbacks, after any earlier scrapes: a reader of the text
-- finds every statistic of the worker, and how many queries failed since the start, this one
-- included, modulo 2^64, in decimal; and the figures of the queue with success 1, or, where the query
-- failed, success 0 and none of them. What `FormatFloat` gives has no newline.
pub metrics-Shows :
    {Float : Type 0} (format_float : Float → Bytes) (c : Collector) (earlier : List (Scrape Float))
    (queue : Result (ℤ × ℤ × Float)) (s : Stats)
    → ((x : Float) → is_line (format_float x) ≡ true)
    → new_collector true true ≡ ok c
    → let text = (metrics format_float queue s (scraped format_float c earlier)).0 in
      ShowsQueue format_float queue text
      × ShowsStats s (failed_queries ((queue, s) ∷ earlier) % u64_mod) text
unfolding metrics
metrics-Shows format_float c earlier queue s floats made =
    let errors = (scraped format_float c ((queue, s) ∷ earlier)).queue_errors in
    let count : errors ≡ failed_queries ((queue, s) ∷ earlier) % u64_mod =
      scraped-failed_queries format_float c ((queue, s) ∷ earlier)
        (start_at_zero format_float c made) in
    (
      shows_queue format_float floats queue s errors,
      ShowsStats-at s count (shows_stats format_float floats queue s errors),
    )
