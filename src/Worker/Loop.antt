-- ===== src/Worker/Loop.antt =====
-- internal/worker/worker.go: `New` and `Run`. What the loop waits for (its timer, its context, the
-- result of an attempt) is a list of rounds.
use usage_billing.Prelude.{
  Bool, true, false, not, ◌||◌, Option, none, some, List, [], ◌∷◌, if◌then◌else◌,
}
use usage_billing.Prelude.Int.{ℤ, pos, ltb_ℤ, leb_ℤ, mul64, div64}
use usage_billing.Errors.{Error, message}
use usage_billing.Worker.Stats.{Stats, start, stop, begin_attempt, finish_attempt, is_set}

-- `Worker` without its statistics; a nil interface is `false`.
pub record Config : Type 0 where
  pub has_processor : Bool
  pub has_logger : Bool
  pub interval : ℤ
  pub batch : ℤ

-- What one attempt returned, and whether the attempt's context and then the loop's context had ended.
pub record Attempt : Type 0 where
  pub count : ℤ
  pub error : Option Error
  pub context_error : Option Error
  pub ended : Bool

-- One turn of the `select`: the context is done, or the timer fires, with the context ended by then
-- or with an attempt.
pub data Round : Type 0 where
  done late : Round
  fired : Attempt → Round

-- 30 * time.Second
abbrev pub thirty_seconds : ℤ
thirty_seconds = pos 30000000000

unfoldable pub max_delay : ℤ → ℤ
max_delay interval = if leb_ℤ thirty_seconds interval then interval else thirty_seconds

-- The delay after an attempt that failed or not.
unfoldable pub next_delay : ℤ → ℤ → Bool → ℤ
next_delay interval delay true =
    if leb_ℤ (div64 (max_delay interval) (pos 2)) delay
    then max_delay interval
    else mul64 delay (pos 2)
next_delay interval delay false = interval

-- Where the loop stands: it has returned, or waits for its timer, with that value of `delay`, which
-- the timer is set to after each attempt. Before the first attempt the timer is set to fire at once.
pub data Waiting : Type 0 where
  returned : Waiting
  armed : ℤ → Waiting

abbrev pub attempted : Attempt → Stats → Stats
attempted a s = finish_attempt a.count a.error a.context_error (begin_attempt s)

-- The `for` loop over the rounds so far, with the delay and the statistics.
unfoldable pub loop : ℤ → List Round → ℤ → Stats → Waiting × Stats
loop interval [] delay s = (armed delay, s)
loop interval (done ∷ rounds) delay s = (returned, s)
loop interval (late ∷ rounds) delay s = (returned, s)
loop interval (fired a ∷ rounds) delay s =
    let rest = loop interval rounds (next_delay interval delay (is_set a.error)) (attempted a s) in
    if a.ended then (returned, attempted a s) else rest

abbrev pub closed : Waiting × Stats → Waiting × Stats
closed (returned, s) = (returned, stop s)
closed (armed d, s) = (armed d, s)

unfoldable pub is_invalid : Config → Bool
is_invalid c =
    not c.has_processor
    || not c.has_logger
    || leb_ℤ c.interval (pos 0)
    || ltb_ℤ c.batch (pos 1)
    || ltb_ℤ (pos 1000) c.batch

-- `Run`: its error, where it stands, and the statistics. The timer is first armed with no delay.
unfoldable pub run : Config → List Round → Stats → Option Error × Waiting × Stats
run c rounds s =
    if is_invalid c
    then (some (message "invalid worker configuration"), returned, s)
    else let (s', free) = start s in
      if not free
      then (some (message "worker is already running"), returned, s')
      else let (w, s'') = closed (loop c.interval rounds c.interval s') in (none, w, s'')
