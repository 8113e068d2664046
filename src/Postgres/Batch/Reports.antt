-- ===== src/Postgres/Batch/Reports.antt =====
-- What a failure leaves in the queue, and what a batch reports, described row by row.
use usage_billing.Prelude.{◌+◌, Bytes, codes, List, [], ◌∷◌, ◌==◌, if◌then◌else◌}
use usage_billing.Billing.{ProcessingEvent}
use usage_billing.Postgres.Schema.{PendingRow}

-- The SQLSTATEs of a violated constraint: not null, foreign key, unique, check and exclusion.
abbrev pub violations : List Bytes
violations = codes "23502" ∷ codes "23503" ∷ codes "23505" ∷ codes "23514" ∷ codes "23P01" ∷ []

-- A queued row with one more failure than it had, and its code; all else is as it was.
abbrev pub charged_once : Bytes → PendingRow → PendingRow
charged_once code row = record {
  event_id = row.event_id;
  enqueued_at = row.enqueued_at;
  processing_failures = row.processing_failures + 1;
  failure_code = code;
  retry_generation = row.retry_generation;
}

-- What is reported of a claimed event that was posted, and of one that was charged with a failure:
-- the third failure puts it in quarantine.
abbrev pub posted_report : ProcessingEvent → ProcessingEvent
posted_report item = record {
  request_id = item.request_id;
  outcome = codes "processed";
  failure_code = item.failure_code;
  processing_failures = item.processing_failures;
  retry_generation = item.retry_generation;
}

abbrev pub failure_report : Bytes → ProcessingEvent → ProcessingEvent
failure_report code item = record {
  request_id = item.request_id;
  outcome =
      (if item.processing_failures + 1 == 3 then codes "quarantined" else codes "retry_scheduled");
  failure_code = code;
  processing_failures = item.processing_failures + 1;
  retry_generation = item.retry_generation;
}
