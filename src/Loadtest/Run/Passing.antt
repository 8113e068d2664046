-- ===== src/Loadtest/Run/Passing.antt =====
-- cmd/loadtest/main.go, `run`: what a run without an error has counted and seen.
use usage_billing.Prelude.{
  ℕ, ◌+◌, Bytes, Bool, true, false, not, Option, none, some, List, [], ◌∷◌, length, length-append,
  if◌then◌else◌, ◌≡◌, refl, sym, ap, ◌∙◌, arith,
}
use usage_billing.Prelude.Int.{ℤ, pos, negsuc, pos_part, neg_part, sub_ℕ, ◌==ℤ◌}
use usage_billing.Errors.{Error, Result, ok, err}
use usage_billing.Loadtest.{Config, Client, Observed, Parsers, validate, summary}
use usage_billing.Loadtest.Clients.{Sample, Turn, Clients, is_over}
use usage_billing.Loadtest.Run.{
  Report, add_sample, collect, judged, new_report, measured, is_settled, verdict, seen, drained,
  drain, finished, probed, named, validated, run, status, exited, main,
}

module _ {A : Type 0} where
  -- Each attempt was accepted or failed, and has its latency if it was accepted.
  record IsTallied (out : Report A) : Type 0 where
    pub attempted : out.attempted ≡ out.accepted + out.errors
    pub latencies : length out.latencies ≡ out.accepted

  either : (b : Bool) {x y : Report A} → IsTallied x → IsTallied y → IsTallied (if b then x else y)
  either true h g = h
  either false h g = g

  add-IsTallied : (s : Sample A) (out : Report A) → IsTallied out → IsTallied (add_sample s out)
  add-IsTallied s out h =
      either s.is_ok
        (record {
          attempted = omega (arith, h.attempted);
          latencies = omega (arith, length-append out.latencies (s.ms ∷ []), h.latencies);
        })
        (record { attempted = omega (arith, h.attempted); latencies = h.latencies })

  collect-IsTallied :
      (ss : List (Sample A)) (out : Report A) → IsTallied out → IsTallied (collect ss out)
  unfolding collect
  collect-IsTallied [] out h = h
  collect-IsTallied (s ∷ ss) out h = collect-IsTallied ss (add_sample s out) (add-IsTallied s out h)

  if-settled :
      (b : Bool) (x y : Report A) → x.settled ≡ y.settled → (if b then x else y).settled ≡ y.settled
  if-settled true x y h = h
  if-settled false x y h = refl

  collect-settled : (ss : List (Sample A)) (out : Report A) → (collect ss out).settled ≡ out.settled
  unfolding collect
  collect-settled [] out = refl
  collect-settled (s ∷ ss) out = collect-settled ss (add_sample s out) ∙ if-settled s.is_ok _ _ refl

  -- The last loop writes only what the summaries tell, and settles by the last of them.
  record IsDrained (cfg : Config) (out after : Report A) : Type 0 where
    pub attempted : after.attempted ≡ out.attempted
    pub accepted : after.accepted ≡ out.accepted
    pub errors : after.errors ≡ out.errors
    pub unattempted : after.unattempted ≡ out.unattempted
    pub latencies : after.latencies ≡ out.latencies
    pub settled :
        after.settled ≡ true
        → (value : Observed) × (after.final ≡ some value) × (is_settled cfg value ≡ true)

  -- What a report without an error tells.
  pub record Passes (cfg : Config) (out : Report A) : Type 0 where
    pub attempted : out.attempted ≡ pos_part cfg.requests
    pub accepted : out.accepted ≡ pos_part cfg.requests
    pub errors : out.errors ≡ 0
    pub latencies : length out.latencies ≡ pos_part cfg.requests
    pub sample_errors : out.observations.sample_errors ≡ 0
    pub final : (value : Observed) × (out.final ≡ some value) × (is_settled cfg value ≡ true)

unsettled : (b : Bool) {P : Type 0} → b ≡ false → b ≡ true → P
unsettled b off on = absurd (ground arith)

module _ {A S : Type 0} (cfg : Config) where
  stops :
      (b : Bool) (value : Observed) (elapsed : A) (out : Report A) (s : S)
      (rest : S → Report A → Report A × S)
      → is_settled cfg value ≡ b
      → IsDrained cfg (seen value elapsed out) (rest s (seen value elapsed out)).0
      → IsDrained cfg out
          (if b
            then (record (seen value elapsed out) { settled = true }, s)
            else rest s (seen value elapsed out)).0
  stops true value elapsed out s rest h d = record {
    attempted = refl;
    accepted = refl;
    errors = refl;
    unattempted = refl;
    latencies = refl;
    settled = λ y. (value, refl, h);
  }
  stops false value elapsed out s rest h d = record {
    attempted = d.attempted;
    accepted = d.accepted;
    errors = d.errors;
    unattempted = d.unattempted;
    latencies = d.latencies;
    settled = d.settled;
  }

module _ {A S : Type 0} (c : Client S) (cfg : Config) (prefix : Bytes) where
  drained-IsDrained :
      (rest : S → Report A → Report A × S) (elapsed : A) (reply : Result Observed × S)
      (out : Report A)
      → out.settled ≡ false
      → ((s : S) (mid : Report A) → mid.settled ≡ false → IsDrained cfg mid (rest s mid).0)
      → IsDrained cfg out (drained c cfg prefix rest elapsed reply out).0
  drained-IsDrained rest elapsed (err e, s) out h ih = record {
    attempted = refl;
    accepted = refl;
    errors = refl;
    unattempted = refl;
    latencies = refl;
    settled = unsettled out.settled h;
  }
  drained-IsDrained rest elapsed (ok value, s) out h ih =
      stops cfg (is_settled cfg value) value elapsed out s rest refl (ih s _ h)

  drain-IsDrained :
      (passes : List A) (s : S) (out : Report A)
      → out.settled ≡ false
      → IsDrained cfg out (drain c cfg prefix passes s out).0
  unfolding drain
  drain-IsDrained [] s out h = record {
    attempted = refl;
    accepted = refl;
    errors = refl;
    unattempted = refl;
    latencies = refl;
    settled = unsettled out.settled h;
  }
  drain-IsDrained (elapsed ∷ passes) s out h =
      drained-IsDrained (drain c cfg prefix passes) elapsed (summary c cfg prefix s) out h
        (drain-IsDrained passes)

unattempted_lem :
    (z : ℤ) (n : ℕ) → (sub_ℕ (pos_part z) (neg_part z + n) ==ℤ pos 0) ≡ true → n ≡ pos_part z
unattempted_lem (pos m) n h = ground arith
unattempted_lem (negsuc m) n h = ground arith

module _ {A : Type 0} (cfg : Config) where
  verdict-Passes :
      (mid out : Report A)
      → IsTallied mid
      → mid.unattempted ≡ sub_ℕ (pos_part cfg.requests) (neg_part cfg.requests + mid.attempted)
      → IsDrained cfg mid out
      → verdict out ≡ none
      → Passes cfg out
  unfolding verdict
  verdict-Passes mid out t rest d h =
      let n : (out.errors ≡ 0)
          × ((out.unattempted ==ℤ pos 0) ≡ true)
          × (out.observations.sample_errors ≡ 0)
          × (out.settled ≡ true) =
        ground arith in
      let (clean, whole, seen_all, settled) = n in
      let all_tried : mid.attempted ≡ pos_part cfg.requests =
        unattempted_lem cfg.requests mid.attempted
          (ap (λ z. z ==ℤ pos 0) (sym rest ∙ sym d.unattempted) ∙ whole) in
      record {
        attempted = d.attempted ∙ all_tried;
        accepted = omega (arith, clean, all_tried, t.attempted, d.accepted, d.errors);
        errors = clean;
        latencies =
            ap length d.latencies
            ∙ omega (arith, clean, all_tried, t.attempted, t.latencies, d.errors);
        sample_errors = seen_all;
        final = d.settled settled;
      }

module _ {A S : Type 0} (leq : A → A → Bool) (zero_ms : A) (c : Client S) (cfg : Config) where
  ended :
      (over : Bool) (r : Report A × S) (out : Report A) (s' : S)
      → (if not over then none else some (judged leq zero_ms c cfg r)) ≡ some (out, none, s')
      → (r.0 ≡ out) × (verdict out ≡ none)
  ended true (after, t) out s' h =
      let e : after ≡ out = cc in let v : verdict after ≡ none = cc in (e, rw (← e) v)
  ended false (after, t) out s' h = ground arith

  finished-Passes :
      (prefix : Bytes) (passes : List A) (x : Clients A S) (out : Report A) (s' : S)
      → finished leq zero_ms c cfg prefix passes x ≡ some (out, none, s')
      → Passes cfg out
  unfolding measured
  finished-Passes prefix passes x out s' h =
      let (e, v) =
        ended (is_over (pos_part cfg.requests) (pos_part cfg.concurrency) x) _ out s' h in
      let first =
        collect-IsTallied x.results (new_report cfg)
          (record { attempted = refl; latencies = refl }) in
      let mid = measured leq zero_ms cfg x.observations (collect x.results (new_report cfg)) in
      let d =
        drain-IsDrained c cfg prefix passes x.service mid
          (collect-settled x.results (new_report cfg)) in
      verdict-Passes cfg mid out
        (record { attempted = first.attempted; latencies = first.latencies }) refl (rw (← e) d) v

  -- A run that ends without an error attempted every request, each was accepted and has its latency,
  -- no summary failed, and the last one settles the run.
  pub run-Passes :
      (p : Parsers) (random : Option Bytes) (ts : List (Turn A)) (passes : List A) (s s' : S)
      (out : Report A)
      → run leq zero_ms c cfg p random ts passes s ≡ some (out, none, s')
      → Passes cfg out × (validate p cfg ≡ none)
  unfolding run
  run-Passes p random ts passes s s' out h = checked (validate p cfg) random h
    where
      asked :
          (prefix : Bytes) (reply : Result Observed × S)
          → probed leq zero_ms c cfg prefix ts passes reply ≡ some (out, none, s')
          → Passes cfg out
      asked prefix (err e, t) h = ground arith
      asked prefix (ok value, t) h = finished-Passes prefix passes _ out s' h

      drawn :
          (random : Option Bytes)
          → named leq zero_ms c cfg random ts passes s ≡ some (out, none, s')
          → Passes cfg out
      drawn none h = ground arith
      drawn (some bytes) h = asked _ _ h

      checked :
          (o : Option Error) (random : Option Bytes)
          → validated leq zero_ms c cfg o random ts passes s ≡ some (out, none, s')
          → Passes cfg out × (o ≡ none)
      checked (some e) random h = ground arith
      checked none random h = (drawn random h, refl)

  status-Passes :
      (written : Bool) (r : Report A × Option Error × S) (out : Report A) (s' : S)
      → (◌≡◌ {A = Option (Report A × ℕ × S)}
          (some (status leq zero_ms c cfg written r))
          (some (out, 0, s')))
      → r ≡ (out, none, s')
  status-Passes written (after, some e, t) out s' h = absurd (ground arith)
  status-Passes written (after, none, t) out s' h = cc

  exited-Passes :
      (o : Option Error) (written : Bool) (r : Option (Report A × Option Error × S)) (s s' : S)
      (out : Report A)
      → exited leq zero_ms c cfg o written r s ≡ some (out, 0, s')
      → r ≡ some (out, none, s')
  exited-Passes (some e) written r s s' out h = absurd (ground arith)
  exited-Passes none written none s s' out h = absurd (ground arith)
  exited-Passes none written (some r) s s' out h = ap some (status-Passes written r out s' h)

  -- A load test that exits with status 0 attempted every request, each was accepted and has its
  -- latency, no summary failed, and the last one settles the run.
  pub main-Passes :
      (p : Parsers) (random : Option Bytes) (ts : List (Turn A)) (passes : List A) (written : Bool)
      (s s' : S) (out : Report A)
      → main leq zero_ms c cfg p random ts passes written s ≡ some (out, 0, s')
      → Passes cfg out × (validate p cfg ≡ none)
  unfolding main
  main-Passes p random ts passes written s s' out h = run-Passes p random ts passes s s' out (
      exited-Passes (validate p cfg) written (run leq zero_ms c cfg p random ts passes s) s s' out
        h)
