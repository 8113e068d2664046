-- ===== src/Worker/Counters.antt =====
-- internal/worker/worker.go: what the statistics count over the attempts of the loop.
use usage_billing.Prelude.{
  ℕ, suc, ◌+◌, ◌%◌, ◌<◌, Bool, Bool-cases, true, false, not, Option, none, some, List, [], ◌∷◌,
  if◌then◌else◌, length, ◌≡◌, inl, inr, refl, ap, ◌∙◌, arith,
}
use usage_billing.Prelude.Int.{ℤ, pos, negsuc, ltb_ℤ, pos_part, u64_mod, bits64}
use usage_billing.Errors.{Error}
use usage_billing.Worker.Stats.{
  Stats, add_u64, stop, begin_attempt, count_attempt, finish_attempt, is_cancellation, is_set,
}
use usage_billing.Worker.Loop.{
  Config, Attempt, Round, done, late, fired, Waiting, returned, armed, next_delay, attempted, loop,
  closed, is_invalid, run,
}
use usage_billing.Worker.Backoff.{started}

-- The attempts that the rounds made, up to the one after which the loop's context had ended.
abbrev pub made : List Round → List Attempt
made [] = []
made (fired a ∷ rounds) = let rest = made rounds in a ∷ (if a.ended then [] else rest)
made (round ∷ rounds) = []

abbrev pub cancels : Option Error → Option Error → Bool
cancels none c = false
cancels (some e) c = is_cancellation e c

abbrev pub fails : Option Error → Option Error → Bool
fails none c = false
fails (some e) c = not (is_cancellation e c)

abbrev pub delivers : Option Error → ℤ → ℕ
delivers none n = pos_part n
delivers (some e) n = 0

abbrev bit : Bool → ℕ
bit true = 1
bit false = 0

abbrev total : (Attempt → ℕ) → List Attempt → ℕ
total f [] = 0
total f (a ∷ xs) = f a + total f xs

abbrev add : ℕ → ℕ → ℕ
add n k = (n + k) % u64_mod

-- The counters of the second statistics are those of the first with the attempts counted, modulo 2^64.
pub record Counts (xs : List Attempt) (s t : Stats) : Type 0 where
  pub attempts : t.batch_attempts ≡ add s.batch_attempts (length xs)
  pub errors :
      t.batch_errors ≡ add s.batch_errors (total (λ a. bit (fails a.error a.context_error)) xs)
  pub cancellations :
      t.batch_cancellations
      ≡ add s.batch_cancellations (total (λ a. bit (cancels a.error a.context_error)) xs)
  pub processed :
      t.events_processed ≡ add s.events_processed (total (λ a. delivers a.error a.count) xs)

-- Every counter is a uint64.
pub record IsUint64 (s : Stats) : Type 0 where
  pub attempts : s.batch_attempts < u64_mod
  pub errors : s.batch_errors < u64_mod
  pub cancellations : s.batch_cancellations < u64_mod
  pub processed : s.events_processed < u64_mod

stays : (n : ℕ) → n < u64_mod → n ≡ add n 0
stays n h = omega arith

add-add : (x y n k m : ℕ) → x ≡ add y m → y ≡ add n k → x ≡ add n (k + m)
add-add x y n k m p q = omega arith

add_one : (x y n m : ℕ) → x ≡ add y m → y ≡ add n 1 → x ≡ add n (suc m)
add_one x y n m p q = omega arith

Counts-none : (s : Stats) → IsUint64 s → Counts [] s s
Counts-none s u = record {
  attempts = stays s.batch_attempts u.attempts;
  errors = stays s.batch_errors u.errors;
  cancellations = stays s.batch_cancellations u.cancellations;
  processed = stays s.events_processed u.processed;
}

if_same {ℓ} :
    {A B : Type ℓ} (f : A → B) (b : Bool) (x y : A) (z : B)
    → f x ≡ z
    → f y ≡ z
    → f (if b then x else y) ≡ z
if_same f true x y z p q = p
if_same f false x y z p q = q

if_apart {ℓ} :
    {A B : Type ℓ} (f : A → B) (b : Bool) (x y : A)
    → f (if b then x else y) ≡ (if b then f x else f y)
if_apart f true x y = refl
if_apart f false x y = refl

attempts_after :
    (n : ℤ) (e c : Option Error) (s : Stats)
    → (finish_attempt n e c (begin_attempt s)).batch_attempts ≡ add s.batch_attempts 1
unfolding finish_attempt begin_attempt count_attempt
attempts_after n none c s = if_same (λ (t : Stats). t.batch_attempts) _ _ _ _ refl refl
attempts_after n (some e) c s = if_same (λ (t : Stats). t.batch_attempts) _ _ _ _ refl refl

errors_after :
    (n : ℤ) (e c : Option Error) (s : Stats)
    → (finish_attempt n e c (begin_attempt s)).batch_errors
      ≡ (if fails e c then add s.batch_errors 1 else s.batch_errors)
unfolding finish_attempt begin_attempt count_attempt
errors_after n none c s = if_same (λ (t : Stats). t.batch_errors) _ _ _ _ refl refl
errors_after n (some e) c s = elim (Bool-cases (is_cancellation e c)) [
  | inl y ↦ rw y refl
  | inr n ↦ rw n refl
]

cancellations_after :
    (n : ℤ) (e c : Option Error) (s : Stats)
    → (finish_attempt n e c (begin_attempt s)).batch_cancellations
      ≡ (if cancels e c then add s.batch_cancellations 1 else s.batch_cancellations)
unfolding finish_attempt begin_attempt count_attempt
cancellations_after n none c s = if_same (λ (t : Stats). t.batch_cancellations) _ _ _ _ refl refl
cancellations_after n (some e) c s = elim (Bool-cases (is_cancellation e c)) [
  | inl y ↦ rw y refl
  | inr n ↦ rw n refl
]

delivered :
    (n : ℤ) (k x m : ℕ)
    → x ≡ add (if ltb_ℤ (pos 0) n then add_u64 k (bits64 n) else k) m
    → x ≡ add k (pos_part n + m)
delivered (pos n) k x m h = ground arith
delivered (negsuc n) k x m h = ground arith

zero_more : (n m : ℕ) → add n m ≡ add n (0 + m)
zero_more n m = omega arith

processed_after :
    (n : ℤ) (e c : Option Error) (s : Stats) (x m : ℕ)
    → x ≡ add (finish_attempt n e c (begin_attempt s)).events_processed m
    → x ≡ add s.events_processed (delivers e n + m)
unfolding finish_attempt begin_attempt count_attempt
processed_after n none c s x m h =
    let same = if_apart (λ (t : Stats). t.events_processed) (ltb_ℤ (pos 0) n) _ _ in
    delivered n s.events_processed x m (h ∙ ap (λ k. add k m) same)
processed_after n (some e) c s x m h =
    let same = if_same (λ (t : Stats). t.events_processed) (is_cancellation e c) _ _ _ refl refl in
    h ∙ ap (λ k. add k m) same ∙ zero_more s.events_processed m

add-bit :
    (b : Bool) (x y n m : ℕ) → x ≡ add y m → y ≡ (if b then add n 1 else n) → x ≡ add n (bit b + m)
add-bit true x y n m p q = add-add x y n 1 m p q
add-bit false x y n m p q = omega arith

Counts-cons :
    (a : Attempt) (xs : List Attempt) (s t : Stats)
    → Counts xs (attempted a s) t
    → Counts (a ∷ xs) s t
Counts-cons a xs s t h = record {
  attempts = add_one _ _ _ _ h.attempts (attempts_after a.count a.error a.context_error s);
  errors =
      add-bit (fails a.error a.context_error) _ _ _ _ h.errors
        (errors_after a.count a.error a.context_error s);
  cancellations =
      add-bit (cancels a.error a.context_error) _ _ _ _ h.cancellations
        (cancellations_after a.count a.error a.context_error s);
  processed = processed_after a.count a.error a.context_error s _ _ h.processed;
}

either_made :
    (b : Bool) (a : Attempt) (xs : List Attempt) (s : Stats) (x : Waiting × Stats)
    → IsUint64 (attempted a s)
    → Counts xs (attempted a s) x.1
    → Counts (a ∷ (if b then [] else xs)) s (if b then (returned, attempted a s) else x).1
either_made true a xs s x u h = Counts-cons a [] s (attempted a s) (Counts-none (attempted a s) u)
either_made false a xs s x u h = Counts-cons a xs s x.1 h

bumped : (b : Bool) (n k : ℕ) → n < u64_mod → (if b then add n k else n) < u64_mod
bumped true n k h = omega arith
bumped false n k h = h

either_bound :
    (b : Bool) (x y : Stats)
    → x.events_processed < u64_mod
    → y.events_processed < u64_mod
    → (if b then x else y).events_processed < u64_mod
either_bound true x y p q = p
either_bound false x y p q = q

processed_bound :
    (n : ℤ) (e c : Option Error) (s : Stats)
    → s.events_processed < u64_mod
    → (finish_attempt n e c (begin_attempt s)).events_processed < u64_mod
unfolding finish_attempt begin_attempt count_attempt
processed_bound n none c s h = either_bound (ltb_ℤ (pos 0) n) _ _ (omega arith) h
processed_bound n (some e) c s h = either_bound (is_cancellation e c) _ _ h h

attempted-IsUint64 : (a : Attempt) (s : Stats) → IsUint64 s → IsUint64 (attempted a s)
attempted-IsUint64 a s u = record {
  attempts = rw (attempts_after a.count a.error a.context_error s) omega arith;
  errors =
      rw (errors_after a.count a.error a.context_error s)
        (bumped (fails a.error a.context_error) s.batch_errors 1 u.errors);
  cancellations =
      rw (cancellations_after a.count a.error a.context_error s)
        (bumped (cancels a.error a.context_error) s.batch_cancellations 1 u.cancellations);
  processed = processed_bound a.count a.error a.context_error s u.processed;
}

pub loop-Counts :
    (interval : ℤ) (rounds : List Round) (delay : ℤ) (s : Stats)
    → IsUint64 s
    → Counts (made rounds) s (loop interval rounds delay s).1
unfolding loop
loop-Counts interval [] delay s u = Counts-none s u
loop-Counts interval (done ∷ rounds) delay s u = Counts-none s u
loop-Counts interval (late ∷ rounds) delay s u = Counts-none s u
loop-Counts interval (fired a ∷ rounds) delay s u =
    either_made a.ended a (made rounds) s _ (attempted-IsUint64 a s u) (
      loop-Counts interval rounds (next_delay interval delay (is_set a.error)) (attempted a s)
        (attempted-IsUint64 a s u))

closed-Counts :
    {xs : List Attempt} {s : Stats} (x : Waiting × Stats)
    → Counts xs s x.1
    → Counts xs s (closed x).1
unfolding stop
closed-Counts (returned, t) h = record {
  attempts = h.attempts;
  errors = h.errors;
  cancellations = h.cancellations;
  processed = h.processed;
}
closed-Counts (armed d, t) h = h

restart :
    {xs : List Attempt} {s t : Stats} → Counts xs (record s { running = true }) t → Counts xs s t
restart h = record {
  attempts = h.attempts;
  errors = h.errors;
  cancellations = h.cancellations;
  processed = h.processed;
}

-- A run of a valid worker that is not running counts the attempts it made, up to the one after which
-- its context had ended: each counter of attempts, errors, cancellations and processed events grows,
-- modulo 2^64, by what the attempts were.
pub run-Counts :
    (c : Config) (rounds : List Round) (s : Stats)
    → is_invalid c ≡ false
    → s.running ≡ false
    → IsUint64 s
    → Counts (made rounds) s (run c rounds s).2
unfolding run
run-Counts c rounds s v r u =
    rw (v, started s r)
      (restart (
        closed-Counts _ (
          loop-Counts c.interval rounds c.interval (record s { running = true })
            (record {
              attempts = u.attempts;
              errors = u.errors;
              cancellations = u.cancellations;
              processed = u.processed;
            }))))
