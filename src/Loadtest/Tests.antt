-- ===== src/Loadtest/Tests.antt =====
-- A run of three requests by two clients, against a service that counts what it accepts.
use usage_billing.Prelude.{
  ℕ, ◌+◌, ◌-◌, Bytes, codes, same, true, false, Option, none, some, List, [], ◌∷◌, leb,
  if◌then◌else◌, ◌≡◌, inl, refl, arith,
}
use usage_billing.Prelude.Int.{pos, mul64, wrap64, ◌*ℤ◌}
use usage_billing.Errors.{ok}
use usage_billing.Strconv.{format_uint, format_int}
use usage_billing.RequestId.{from_context, encode, hex_digit}
use usage_billing.Billing.{Event, same_input}
use usage_billing.Billing.Pricing.{IsEntropy}
use usage_billing.Billing.Service
use usage_billing.Http.Handler.{background}
use usage_billing.Postgres.{Db, has}
use usage_billing.Postgres.Store.{Store}
use usage_billing.Postgres.System.{empty}
use usage_billing.Postgres.System.Steps.{empty-IsConsistent}
use usage_billing.Postgres.System.Progress.{healthy}
use usage_billing.Application.{service_over}
use usage_billing.Application.Accepting.{IsOpen}
use usage_billing.Loadtest.Inputs.{prefix_of, accept-expected}
use usage_billing.Loadtest.{
  expected, Config, Parsers, Client, Observed, validate, any_unsafe, request, accept, summary,
}
use usage_billing.Loadtest.Percentile.{p95, p99, percentile, sort, insert, rank, scaled, last_unit}
use usage_billing.Loadtest.Percentile.Nearest.{IsOrder, IsRanked, percentile-IsRanked}
use usage_billing.Loadtest.Clients.{Turn, attempt, client_turn, turns, clients_at, input_of}
use usage_billing.Loadtest.Clients.Shares.{times, share, turns-share, turns-once}
use usage_billing.Loadtest.Run.{Report, main, run, collect, measured, is_settled, drain, verdict}
use usage_billing.Loadtest.Run.Passing.{Passes, main-Passes}
use usage_billing.Loadtest.Safety.{IsSafe, validate-IsSafe}

abbrev cfg : Config
cfg = record {
  base_url = codes "http://127.0.0.1:8080";
  token = codes "0123456789abcdef0123456789abcdef";
  requests = pos 3;
  concurrency = pos 2;
  timeout = pos 120000000000;
  allow_writes = true;
}

abbrev parsers : Parsers
parsers = record {
  url = λ s. some (record {
    scheme = codes "http";
    has_user = false;
    raw_query = [];
    fragment = [];
    path = [];
    opaque = [];
    hostname = codes "127.0.0.1";
  });
  address = λ s. some (record { is_loopback = true; zone = [] });
}

abbrev random : Bytes
random = 0 ∷ 0 ∷ 0 ∷ 0 ∷ 0 ∷ 0 ∷ 0 ∷ 0 ∷ 0 ∷ 0 ∷ 0 ∷ 0 ∷ 0 ∷ 0 ∷ 0 ∷ 0 ∷ []

abbrev prefix : Bytes
prefix = codes "load_00000000000000000000000000000000"

abbrev event_named : Bytes → Event
event_named id = record {
  input = record { event_id = id; customer_id = prefix; meter = codes "api_calls"; units = pos 1 };
  request_id = [];
  unit_price_micros = pos 1000;
  amount_micros = pos 1000;
  currency = codes "USD";
  processed = false;
  created_at = 0;
  failed = false;
  processing_failures = 0;
  failure_code = [];
  retry_generation = pos 0;
}

-- The summary of so many processed requests, as one digit.
abbrev counted : Bytes → Option Observed
counted [] = none
counted (c ∷ s) = some (record {
  customer_id = prefix;
  currency = codes "USD";
  units = c ∷ [];
  amount_micros = c ∷ codes "000";
  pending = pos 0;
  processed = pos (c - b'0');
})

abbrev client : Client ℕ
client = record {
  builds = λ call. true;
  send = λ call n.
      if same call.method (codes "POST")
      then (some (record { status = 202; body = some call.sent; closes = true }), n + 1)
      else (some (record { status = 200; body = some ((b'0' + n) ∷ []); closes = true }), n);
  encode = λ input. some input.event_id;
  decode_event = λ s. some (event_named s);
  decode_summary = λ s. counted s;
}

abbrev schedule : List (Turn ℕ)
schedule = attempt 1 false 30 ∷ attempt 0 false 20 ∷ attempt 1 false 9 ∷ attempt 0 false 10 ∷ []

abbrev out : Report ℕ
out = record {
  requests = pos 3;
  concurrency = pos 2;
  attempted = 3;
  accepted = 3;
  errors = 0;
  unattempted = pos 0;
  latencies = 30 ∷ 20 ∷ 10 ∷ [];
  p95_ms = some 30;
  p99_ms = some 30;
  observations = record {
    samples = record { elapsed = 55; pending = pos 0; processed = pos 3 } ∷ [];
    sample_errors = 0;
    max_pending = pos 0;
  };
  settled = true;
  final = counted (codes "3");
}

main-Passes_example : Passes cfg out × (validate parsers cfg ≡ none)
unfolding main run validate any_unsafe summary request accept same encode hex_digit format_uint
    format_int client_turn turns collect measured percentile sort insert rank scaled last_unit
    is_settled drain verdict mul64 wrap64 ◌*ℤ◌ same_input
main-Passes_example =
    main-Passes leb 0 client cfg parsers (some random) schedule (55 ∷ []) true 0 3 out refl

abbrev latencies : List ℕ
latencies = 30 ∷ 20 ∷ 10 ∷ 50 ∷ 40 ∷ []

order : IsOrder leb
order = record { total = λ x y h. ground arith; trans = λ x y z p q. ground arith }

abbrev store : Store
store = record { max_pending = 2 }

opened : IsOpen store (input_of (prefix_of random) 9999).event_id empty
unfolding has
opened = record { consistent = empty-IsConsistent 2; fresh = refl; room = omega arith }

percentile-IsRanked_example :
    ((v : ℕ) × (percentile leb p95 0 latencies ≡ some v) × IsRanked leb 5 latencies v)
    × ((v : ℕ) × (percentile leb p99 0 latencies ≡ some v) × IsRanked leb 5 latencies v)
percentile-IsRanked_example = percentile-IsRanked leb order 0 latencies (omega arith) (omega arith)

turns-share_example :
    let x = turns client cfg prefix schedule (clients_at 0) in
    times 2 x.results ≡ share 3 2 x.position 2
turns-share_example = turns-share client cfg prefix schedule 0 2

turns-once_example : times 2 (turns client cfg prefix schedule (clients_at {A = ℕ} 0)).results ≡ 1
unfolding turns client_turn accept request same same_input
turns-once_example =
    turns-once client cfg prefix schedule 0 2 refl (λ k low. refl) (omega arith) (omega arith)

validate-IsSafe_example : IsSafe (λ s. s) parsers cfg
unfolding validate any_unsafe same
validate-IsSafe_example = validate-IsSafe (λ s. s) parsers cfg refl

raw-IsEntropy : IsEntropy random
raw-IsEntropy = ground arith

accept-expected_example :
    let input = input_of (prefix_of random) 9999 in
    let svc = service_over (healthy (λ n. n) (λ id. false) (λ a b. true)) store (pos 1000) in
    (event : Event) × (db' : Db) × (Service.accept svc background random input empty
      ≡ (ok (event, true), db'))
    × (expected input (ok event) ≡ none)
unfolding from_context
accept-expected_example =
    accept-expected (λ n. n) (λ id. false) (λ a b. true) store background random random 9999 empty
      raw-IsEntropy (inl refl) raw-IsEntropy (omega arith) opened
