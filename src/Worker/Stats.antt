-- ===== src/Worker/Stats.antt =====
-- internal/worker/worker.go: `Stats` and the methods that change it under the mutex. Counters are
-- uint64 and wrap around.
use usage_billing.Prelude.{ℕ, ◌+◌, ◌%◌, Bool, true, false, ◌||◌, Option, none, some, if◌then◌else◌}
use usage_billing.Prelude.Int.{ℤ, pos, ltb_ℤ, bits64, u64_mod}
use usage_billing.Errors.{Error, canceled, deadline_exceeded, is}

pub record Stats : Type 0 where
  pub running : Bool
  pub batch_in_flight : Bool
  pub batch_attempts : ℕ
  pub batch_errors : ℕ
  pub batch_cancellations : ℕ
  pub events_processed : ℕ

abbrev pub add_u64 : ℕ → ℕ → ℕ
add_u64 a b = (a + b) % u64_mod

-- `start`; whether the caller may run
unfoldable pub start : Stats → Stats × Bool
start s = if s.running then (s, false) else (record s { running = true }, true)

unfoldable pub stop : Stats → Stats
stop s = record s { running = false; batch_in_flight = false }

unfoldable pub begin_attempt : Stats → Stats
begin_attempt s = record s { batch_in_flight = true }

abbrev pub is_set : Option Error → Bool
is_set none = false
is_set (some e) = true

-- Whether a failure counts as a cancellation: the attempt's context has ended, or the error says so.
unfoldable pub is_cancellation : Error → Option Error → Bool
is_cancellation e context_error = is_set context_error || is e canceled || is e deadline_exceeded

-- The counters by the attempt's error.
unfoldable pub count_attempt : ℤ → Option Error → Option Error → Stats → Stats
count_attempt count (some e) context_error s =
    if is_cancellation e context_error
    then record s { batch_cancellations = add_u64 s.batch_cancellations 1 }
    else record s { batch_errors = add_u64 s.batch_errors 1 }
count_attempt count none context_error s =
    if ltb_ℤ (pos 0) count
    then record s { events_processed = add_u64 s.events_processed (bits64 count) }
    else s

unfoldable pub finish_attempt : ℤ → Option Error → Option Error → Stats → Stats
finish_attempt count e context_error s =
    count_attempt count e context_error
      (record s { batch_in_flight = false; batch_attempts = add_u64 s.batch_attempts 1 })
