-- ===== src/Loadtest/Run.antt =====
-- cmd/loadtest/main.go: `run`, from the configuration to the report and its error.
pub mod Passing
use usage_billing.Prelude.{
  ℕ, suc, ◌+◌, ◌*◌, String, Bytes, codes, same, Bool, true, false, not, ◌&&◌, ◌||◌, Option, none,
  some, List, [], ◌∷◌, ◌++◌, length, take, ltb, leb, ◌==◌, if◌then◌else◌,
}
use usage_billing.Prelude.Int.{ℤ, pos, pos_part, neg_part, sub_ℕ, ltb_ℤ, mul64, ◌==ℤ◌}
use usage_billing.Errors.{Error, message, Result, ok, err}
use usage_billing.Strconv.{format_uint, format_int}
use usage_billing.Billing.{Input}
use usage_billing.Loadtest.{Config, Client, Observed, Parsers, validate, accept, summary}
use usage_billing.RequestId.{encode}
use usage_billing.Loadtest.Clients.{
  Sample, Observations, Turn, Clients, observe, missed, nothing_observed, turns, is_over,
  clients_at,
}
use usage_billing.Loadtest.Percentile.{p95, p99, percentile}

-- `report`, without the numbers that are computed from its other fields for display
pub record Report (A : Type 0) : Type 0 where
  pub requests : ℤ
  pub concurrency : ℤ
  pub attempted : ℕ
  pub accepted : ℕ
  pub errors : ℕ
  pub unattempted : ℤ
  pub latencies : List A
  pub p95_ms : Option A
  pub p99_ms : Option A
  pub observations : Observations A
  pub settled : Bool
  pub final : Option Observed

unfoldable pub is_settled : Config → Observed → Bool
is_settled cfg value =
    value.pending ==ℤ pos 0
    && value.processed ==ℤ cfg.requests
    && same value.units (format_int cfg.requests)
    && same value.amount_micros (format_int (mul64 cfg.requests (pos 1000)))

module _ {A : Type 0} where
  abbrev pub add_sample : Sample A → Report A → Report A
  add_sample s out =
      if s.is_ok
      then record out {
        attempted = out.attempted + 1;
        accepted = out.accepted + 1;
        latencies = out.latencies ++ s.ms ∷ [];
      }
      else record out { attempted = out.attempted + 1; errors = out.errors + 1 }

  -- `for result := range results`
  unfoldable pub collect : List (Sample A) → Report A → Report A
  collect [] out = out
  collect (s ∷ ss) out = collect ss (add_sample s out)

  abbrev pub new_report : Config → Report A
  new_report cfg = record {
    requests = cfg.requests;
    concurrency = cfg.concurrency;
    attempted = 0;
    accepted = 0;
    errors = 0;
    unattempted = cfg.requests;
    latencies = [];
    p95_ms = none;
    p99_ms = none;
    observations = nothing_observed;
    settled = false;
    final = none;
  }

  -- The report after the acceptance; `requests - attempted` does not overflow.
  unfoldable pub measured : (A → A → Bool) → A → Config → Observations A → Report A → Report A
  measured leq zero_ms cfg observed out = record out {
    observations = observed;
    unattempted = sub_ℕ (pos_part cfg.requests) (neg_part cfg.requests + out.attempted);
    p95_ms = percentile leq p95 zero_ms out.latencies;
    p99_ms = percentile leq p99 zero_ms out.latencies;
  }

  -- The error that `run` ends with.
  unfoldable pub verdict : Report A → Option Error
  verdict out =
      if not (out.errors == 0)
        || not (out.unattempted ==ℤ pos 0)
        || not (out.observations.sample_errors == 0)
        || not out.settled
      then some (message "load or settlement failed")
      else none

  abbrev pub seen : Observed → A → Report A → Report A
  seen value elapsed out = record out {
    observations = observe value elapsed out.observations;
    final = some value;
  }

module _ {A S : Type 0} (c : Client S) (cfg : Config) (prefix : Bytes) where
  abbrev pub drained :
      (S → Report A → Report A × S) → A → Result Observed × S → Report A → Report A × S
  drained rest elapsed (err e, s) out = (record out { observations = missed out.observations }, s)
  drained rest elapsed (ok value, s) out =
      if is_settled cfg value
      then (record (seen value elapsed out) { settled = true }, s)
      else rest s (seen value elapsed out)

  -- The loop that waits for the worker to drain the queue, over the passes until the context ends.
  unfoldable pub drain : List A → S → Report A → Report A × S
  drain [] s out = (out, s)
  drain (elapsed ∷ passes) s out = drained (drain passes) elapsed (summary c cfg prefix s) out

module _ {A S : Type 0} (leq : A → A → Bool) (zero_ms : A) (c : Client S) (cfg : Config) where
  abbrev pub judged : Report A × S → Report A × Option Error × S
  judged (out, s) = (out, verdict out, s)

  -- From the end of the acceptance; `none` where a client is still at work.
  abbrev pub finished : Bytes → List A → Clients A S → Option (Report A × Option Error × S)
  finished prefix passes x =
      if not (is_over (pos_part cfg.requests) (pos_part cfg.concurrency) x)
      then none
      else some (
          judged (
            drain c cfg prefix passes x.service
              (measured leq zero_ms cfg x.observations (collect x.results (new_report cfg)))))

  abbrev pub probed :
      Bytes → List (Turn A) → List A → Result Observed × S → Option (Report A × Option Error × S)
  probed prefix ts passes (err e, s) = some (new_report cfg, some e, s)
  probed prefix ts passes (ok value, s) =
      finished prefix passes (turns c cfg prefix ts (clients_at s))

  abbrev pub named :
      Option Bytes → List (Turn A) → List A → S → Option (Report A × Option Error × S)
  named none ts passes s = some (new_report cfg, some (message "cannot generate run identifier"), s)
  named (some random) ts passes s =
      probed (codes "load_" ++ encode random) ts passes
        (summary c cfg (codes "load_" ++ encode random) s)

  abbrev pub validated :
      Option Error
      → Option Bytes
      → List (Turn A)
      → List A
      → S
      → Option (Report A × Option Error × S)
  validated (some e) random ts passes s = some (new_report cfg, some e, s)
  validated none random ts passes s = named random ts passes s

  -- `run`: the turns of the clients, then the passes of the last loop. A failed `rand.Read` is `none`.
  unfoldable pub run :
      Parsers → Option Bytes → List (Turn A) → List A → S → Option (Report A × Option Error × S)
  run p random ts passes s = validated (validate p cfg) random ts passes s

  -- The status of the program with the report, which is written or not.
  abbrev pub status : Bool → Report A × Option Error × S → Report A × ℕ × S
  status written (out, some e, s) = (out, 1, s)
  status written (out, none, s) = (out, if written then 0 else 1, s)

  abbrev pub exited :
      Option Error → Bool → Option (Report A × Option Error × S) → S → Option (Report A × ℕ × S)
  exited (some e) written r s = some (new_report cfg, 2, s)
  exited none written none s = none
  exited none written (some r) s = some (status written r)

  -- `main`: the report, the status with which it exits, and the service; a run that ends with an error
  -- writes its report too, and only status 2 means that there is none.
  unfoldable pub main :
      Parsers → Option Bytes → List (Turn A) → List A → Bool → S → Option (Report A × ℕ × S)
  main p random ts passes written s = exited (validate p cfg) written (run p random ts passes s) s
