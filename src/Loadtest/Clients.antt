-- ===== src/Loadtest/Clients.antt =====
-- cmd/loadtest/main.go: the clients of `run`, and `monitor`. The clients, the monitor and the clock come as a list of
-- turns in the order in which they reach the service. Times are of a type of their own, as float64.
pub mod Shares
use usage_billing.Prelude.{
  ℕ, zero, suc, ◌+◌, ◌*◌, String, Bytes, codes, same, Bool, true, false, not, ◌&&◌, ◌||◌, Option,
  none, some, List, [], ◌∷◌, ◌++◌, length, take, ltb, leb, ◌==◌, if◌then◌else◌,
}
use usage_billing.Prelude.Int.{ℤ, pos, pos_part, neg_part, sub_ℕ, ltb_ℤ, mul64, ◌==ℤ◌}
use usage_billing.Errors.{Error, message, Result, ok, err}
use usage_billing.Strconv.{format_uint, format_int}
use usage_billing.Billing.{Input}
use usage_billing.Loadtest.{Config, Client, Observed, Parsers, validate, accept, summary}
use usage_billing.Loadtest.Percentile.{p95, p99, percentile}

-- `sample` of the channel, with the index of the attempt
pub record Sample (A : Type 0) : Type 0 where
  pub index : ℕ
  pub ms : A
  pub is_ok : Bool

-- `queueSample`
pub record QueueSample (A : Type 0) : Type 0 where
  pub elapsed : A
  pub pending : ℤ
  pub processed : ℤ

-- The part of the report that `observe` writes.
pub record Observations (A : Type 0) : Type 0 where
  pub samples : List (QueueSample A)
  pub sample_errors : ℕ
  pub max_pending : ℤ

-- One turn of a client, with whether the context had ended when it looked and the time that the
-- attempt took; or a tick of the monitor, with whether the context ended by the summary's end.
pub data Turn (A : Type 0) : Type 0 where
  attempt : ℕ → Bool → A → Turn A
  tick : Bool → A → Turn A

-- Where the clients and the monitor stand: the next index of each client, which clients returned,
-- what came through the channel, and the service at the other end.
pub record Clients (A S : Type 0) : Type 0 where
  pub position : ℕ → ℕ
  pub returned : ℕ → Bool
  pub results : List (Sample A)
  pub is_watching : Bool
  pub observations : Observations A
  pub service : S

abbrev pub max_ℤ : ℤ → ℤ → ℤ
max_ℤ a b = if ltb_ℤ a b then b else a

module _ {A : Type 0} where
  abbrev pub observe : Observed → A → Observations A → Observations A
  observe value elapsed o = record o {
    samples =
        o.samples
        ++ record { elapsed = elapsed; pending = value.pending; processed = value.processed } ∷ [];
    max_pending = max_ℤ o.max_pending value.pending;
  }

  abbrev pub missed : Observations A → Observations A
  missed o = record o { sample_errors = o.sample_errors + 1 }

  abbrev pub noted : Result Observed → A → Observations A → Observations A
  noted (err e) elapsed o = missed o
  noted (ok value) elapsed o = observe value elapsed o

  abbrev pub nothing_observed : Observations A
  nothing_observed = record { samples = []; sample_errors = 0; max_pending = pos 0 }

abbrev pub at : {B : Type 0} → ℕ → B → (ℕ → B) → ℕ → B
at k b f j = if j == k then b else f j

abbrev pub is_accepted : Option Error → Bool
is_accepted none = true
is_accepted (some e) = false

abbrev pub input_of : Bytes → ℕ → Input
input_of prefix i = record {
  event_id = prefix ++ b'_' ∷ format_uint i;
  customer_id = prefix;
  meter = codes "api_calls";
  units = pos 1;
}

module _ {A S : Type 0} (c : Client S) (cfg : Config) (prefix : Bytes) where
  -- What a client's attempt brings, and its next index, `i += cfg.concurrency`.
  abbrev pub sampled : ℕ → ℕ → A → Option Error × S → Clients A S → Clients A S
  sampled k i ms (e, s) x = record x {
    position = at k (i + pos_part cfg.concurrency) x.position;
    results = x.results ++ record { index = i; ms = ms; is_ok = is_accepted e } ∷ [];
    service = s;
  }

  unfoldable pub client_turn : ℕ → Bool → A → Clients A S → Clients A S
  client_turn k ended ms x =
      if not (ltb k (pos_part cfg.concurrency))
        || x.returned k
        || not (ltb (x.position k) (pos_part cfg.requests))
      then x
      else if ended
      then record x { returned = at k true x.returned }
      else sampled k (x.position k) ms (accept c cfg (input_of prefix (x.position k)) x.service) x

  abbrev pub watched : Bool → A → Result Observed × S → Clients A S → Clients A S
  watched true elapsed (r, s) x = record x { is_watching = false; service = s }
  watched false elapsed (r, s) x = record x {
    observations = noted r elapsed x.observations;
    service = s;
  }

  unfoldable pub monitor_turn : Bool → A → Clients A S → Clients A S
  monitor_turn ended elapsed x =
      if not x.is_watching then x else watched ended elapsed (summary c cfg prefix x.service) x

  abbrev pub turn : Turn A → Clients A S → Clients A S
  turn (attempt k ended ms) x = client_turn k ended ms x
  turn (tick ended elapsed) x = monitor_turn ended elapsed x

  unfoldable pub turns : List (Turn A) → Clients A S → Clients A S
  turns [] x = x
  turns (t ∷ ts) x = turns ts (turn t x)

module _ {A S : Type 0} where
  -- `clients.Wait()` ends: each of the first so many clients returned or has no index left.
  abbrev pub is_over : ℕ → ℕ → Clients A S → Bool
  is_over requests zero x = true
  is_over requests (suc k) x =
      (x.returned k || not (ltb (x.position k) requests)) && is_over requests k x

  -- Before the first turn
  abbrev pub clients_at : S → Clients A S
  clients_at s = record {
    position = λ k. k;
    returned = λ k. false;
    results = [];
    is_watching = true;
    observations = nothing_observed;
    service = s;
  }
