-- ===== src/Worker/Backoff.antt =====
-- internal/worker/worker.go, `Run`: the delays of the loop, against their closed form.
use usage_billing.Prelude.{
  ℕ, zero, suc, ◌*◌, ◌^◌, ◌≤◌, leb, if◌then◌else◌, Bool, Bool-cases, true, false, List, [], ◌∷◌,
  not, ◌&&◌, ◌≡◌, inl, inr, refl, ◌<◌, ◌∙◌, ap, sym, arith,
}
use usage_billing.Prelude.Int.{ℤ, pos, max_int64, mul64, div64, wrap64_of_IsInt64, *ℤ-pos}
use usage_billing.Worker.Stats.{Stats, start, is_set}
use usage_billing.Worker.Loop.{
  Round, done, late, fired, Waiting, returned, armed, max_delay, next_delay, attempted, loop,
  closed, Config, run, is_invalid,
}

double : (d : ℕ) → d * 2 ≤ max_int64 → mul64 (pos d) (pos 2) ≡ pos (d * 2)
unfolding mul64
double d h = rw (*ℤ-pos d 2, wrap64_of_IsInt64 (pos (d * 2)) (h, omega arith)) refl

abbrev pub smaller : ℕ → ℕ → ℕ
smaller a b = if leb a b then a else b

-- max(30s, interval)
abbrev pub longest : ℕ → ℕ
longest n = if leb 30000000000 n then n else 30000000000

-- A delay that is the smaller of m and the cap, doubled.
next_delay_small :
    (n d : ℕ)
    → n < 30000000000
    → d ≤ 30000000000
    → next_delay (pos n) (pos d) true ≡ pos (if leb 15000000000 d then 30000000000 else d * 2)
unfolding next_delay max_delay div64
next_delay_small n d p q = elim (Bool-cases (leb 15000000000 d)) [
  | inl half ↦ ground arith
  | inr early ↦ rw (double d (ground arith)) ground arith
]

next_delay_big : (n d : ℕ) → 30000000000 ≤ n → n ≤ d → next_delay (pos n) (pos d) true ≡ pos n
unfolding next_delay max_delay div64
next_delay_big n d p q = ground arith

next_delay_capped :
    (n m : ℕ)
    → n ≤ m
    → next_delay (pos n) (pos (smaller m (longest n))) true ≡ pos (smaller (m * 2) (longest n))
next_delay_capped n m p = elim (Bool-cases (leb 30000000000 n)) [
  | inl big ↦ next_delay_big n (smaller m (longest n)) (ground arith) (ground arith) ∙ ground arith
  | inr small ↦
      next_delay_small n (smaller m (longest n)) (ground arith) (ground arith) ∙ ground arith
]

-- The delay after k failures in a row.
abbrev pub backoff : ℕ → ℕ → ℕ
backoff n k = smaller (n * 2 ^ k) (longest n)

-- The failures in a row at the end of the rounds, after k of them.
abbrev pub streak : ℕ → List Round → ℕ
streak k [] = k
streak k (fired a ∷ rounds) = streak (if is_set a.error then suc k else 0) rounds
streak k (round ∷ rounds) = streak k rounds

pow_suc : (n k : ℕ) → n * 2 ^ suc k ≡ n * 2 ^ k * 2
pow_suc n k = grind arith

le_pow : (n k : ℕ) → n ≤ n * 2 ^ k
le_pow n zero = omega arith
le_pow n (suc k) = let h = le_pow n k in rw (pow_suc n k) omega arith

next_delay-backoff :
    (n k : ℕ) (failed : Bool)
    → next_delay (pos n) (pos (backoff n k)) failed ≡ pos (backoff n (if failed then suc k else 0))
unfolding next_delay
next_delay-backoff n k true =
    next_delay_capped n (n * 2 ^ k) (le_pow n k)
    ∙ ap (λ m. pos (smaller m (longest n))) (sym (pow_suc n k))
next_delay-backoff n k false = ground arith

-- Whether no round ended the loop.
abbrev pub is_open : List Round → Bool
is_open [] = true
is_open (fired a ∷ rounds) = not a.ended && is_open rounds
is_open (round ∷ rounds) = false

-- Where the loop stands after the rounds, with k failures before them.
abbrev pub stands : ℕ → ℕ → List Round → Waiting
stands n k rounds = if is_open rounds then armed (pos (backoff n (streak k rounds))) else returned

either_ended :
    (e o : Bool) (t : Stats) (x : Waiting × Stats) (w : Waiting)
    → x.0 ≡ (if o then w else returned)
    → (if e then (returned, t) else x).0 ≡ (if not e && o then w else returned)
either_ended true o t x w h = refl
either_ended false o t x w h = h

loop-stands :
    (n k : ℕ) (rounds : List Round) (delay : ℤ) (s : Stats)
    → delay ≡ pos (backoff n k)
    → (loop (pos n) rounds delay s).0 ≡ stands n k rounds
unfolding loop
loop-stands n k [] delay s h = ap armed h
loop-stands n k (done ∷ rounds) delay s h = refl
loop-stands n k (late ∷ rounds) delay s h = refl
loop-stands n k (fired a ∷ rounds) delay s h =
    either_ended a.ended (is_open rounds) (attempted a s) _ _ (
      loop-stands n (if is_set a.error then suc k else 0) rounds _ (attempted a s) (
        ap (λ d. next_delay (pos n) d (is_set a.error)) h
        ∙ next_delay-backoff n k (is_set a.error)))

loop_at_start :
    (i : ℤ) (n : ℕ) (rounds : List Round) (s : Stats)
    → i ≡ pos n
    → (loop i rounds i s).0 ≡ stands n 0 rounds
loop_at_start i n rounds s p = let h = loop-stands n 0 rounds (pos n) s (ground arith) in rw (p) h

closed_same : (x : Waiting × Stats) → (closed x).0 ≡ x.0
closed_same (returned, s) = refl
closed_same (armed d, s) = refl

pub started : (s : Stats) → s.running ≡ false → start s ≡ (record s { running = true }, true)
unfolding start
started s r = rw (r) refl

-- A worker with a valid configuration that is not running waits, after any rounds, for its timer
-- unless a round ended it, and its delay, which the timer is set to after each attempt, is the
-- interval doubled for each failure in a row since the last success, capped at the larger of 30
-- seconds and the interval; the doubling in int64 does not wrap around on the way.
pub run-stands :
    (c : Config) (n : ℕ) (rounds : List Round) (s : Stats)
    → is_invalid c ≡ false
    → s.running ≡ false
    → c.interval ≡ pos n
    → (run c rounds s).1 ≡ stands n 0 rounds
unfolding run
run-stands c n rounds s v r p =
    rw (v, started s r)
      (closed_same _ ∙ loop_at_start c.interval n rounds (record s { running = true }) p)
