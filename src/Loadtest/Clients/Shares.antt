-- ===== src/Loadtest/Clients/Shares.antt =====
-- cmd/loadtest/main.go, `run`: how the clients share the indices of the requests.
use usage_billing.Prelude.{
  ℕ, zero, suc, ◌+◌, ◌/◌, ◌%◌, ◌≤◌, ◌<◌, Bytes, Bool, true, false, not, ◌&&◌, ◌||◌, Option, List,
  [], ◌∷◌, ◌++◌, ltb, leb, ◌==◌, if◌then◌else◌, ◌≡◌, refl, sym, ap, ◌∙◌, arith, Bool-cases, leb→le,
  inl, inr,
}
use usage_billing.Prelude.Int.{pos_part}
use usage_billing.Errors.{Error, Result}
use native.Mathlib.Nat.{
  add-mod_right, mod-eq_of_lt, mod-le, mod-lt, div-add-mod, mul-le-mul_left, mul-suc,
}
use usage_billing.Loadtest.{Config, Client, Observed}
use usage_billing.Loadtest.Clients.{
  Sample, Turn, attempt, tick, Clients, at, sampled, client_turn, watched, monitor_turn, turn,
  turns, clients_at, is_over,
}

same_class : (c p i : ℕ) → i % c ≡ p % c → p ≤ i → i < p + c → i ≡ p
same_class c p i same low high =
    let a = div-add-mod i c in
    let b = div-add-mod p c in
    elim (Bool-cases (leb (i / c) (p / c))) [
      | inl h ↦ omega (arith, a, b, mul-le-mul_left c (leb→le (i / c) (p / c) h))
      | inr h ↦
          let up : suc (p / c) ≤ i / c = ground arith in
          absurd (omega (arith, a, b, mul-suc c (p / c), mul-le-mul_left c up))
    ]

module _ {A : Type 0} where
  -- How often the index was attempted.
  abbrev pub times : ℕ → List (Sample A) → ℕ
  times i [] = 0
  times i (s ∷ ss) = (if s.index == i then 1 else 0) + times i ss

  times-append :
      (i : ℕ) (ss : List (Sample A)) (s : Sample A)
      → times i (ss ++ s ∷ []) ≡ times i ss + (if s.index == i then 1 else 0)
  times-append i [] s = omega arith
  times-append i (r ∷ ss) s = omega (arith, times-append i ss s)

-- The indices below the end that client `i % c` has passed.
abbrev pub share : ℕ → ℕ → (ℕ → ℕ) → ℕ → ℕ
share n c position i = if ltb i n && ltb i (position (i % c)) then 1 else 0

record Shares {A S : Type 0} (n c : ℕ) (x : Clients A S) : Type 0 where
  pub class : (k : ℕ) → k < c → x.position k % c ≡ k
  pub times : (i : ℕ) → times i x.results ≡ share n c x.position i

moved-class :
    (c k : ℕ) (position : ℕ → ℕ)
    → ((j : ℕ) → j < c → position j % c ≡ j)
    → (j : ℕ) → j < c
    → at k (position k + c) position j % c ≡ j
moved-class c k position h j low = elim (Bool-cases (j == k)) [
  | inl e ↦
      let same : j ≡ k = ground arith in
      rw (e) (add-mod_right (position k) c ∙ ap (λ m. position m % c) (sym same) ∙ h j low)
  | inr e ↦ rw (e) (h j low)
]

own_share :
    (n c p i : ℕ) {k : ℕ}
    → i % c ≡ p % c
    → k < c
    → p < n
    → (if ltb i n && ltb i p then 1 else 0) + (if p == i then 1 else 0)
      ≡ (if ltb i n && ltb i (p + c) then 1 else 0)
own_share n c p i same low inside = ground (arith, same_class c p i same)

other_index :
    (c k : ℕ) (position : ℕ → ℕ) (i : ℕ)
    → position k % c ≡ k
    → (i % c == k) ≡ false
    → (position k == i) ≡ false
other_index c k position i h other = elim (Bool-cases (position k == i)) [
  | inl y ↦
      let e : position k ≡ i = ground arith in
      let mine : i % c ≡ k = ap (λ m. m % c) (sym e) ∙ h in absurd (ground arith)
  | inr y ↦ y
]

moved-share :
    (n c k : ℕ) (position : ℕ → ℕ) (i : ℕ)
    → ((j : ℕ) → j < c → position j % c ≡ j)
    → k < c
    → position k < n
    → share n c position i + (if position k == i then 1 else 0)
      ≡ share n c (at k (position k + c) position) i
moved-share n c k position i h low inside = elim (Bool-cases (i % c == k)) [
  | inl e ↦
      let mine : i % c ≡ k = ground arith in
      rw (e, mine) (own_share n c (position k) i (mine ∙ sym (h k low)) low inside)
  | inr e ↦ rw (e, other_index c k position i (h k low) e) (omega arith)
]

unguarded : (a b c : Bool) → (not a || b || not c) ≡ false → (a ≡ true) × (c ≡ true)
unguarded a b c h = ground arith

either :
    {A S : Type 0} {n c : ℕ} {x y : Clients A S} (b : Bool)
    → Shares n c x
    → Shares n c y
    → Shares n c (if not b then x else y)
either true h g = g
either false h g = h

module _ {A S : Type 0} (cl : Client S) (cfg : Config) (prefix : Bytes) where
  sampled-Shares :
      (n c k : ℕ) (ms : A) (reply : Option Error × S) (x : Clients A S)
      → pos_part cfg.concurrency ≡ c
      → k < c
      → x.position k < n
      → Shares n c x
      → Shares n c (sampled cl cfg prefix k (x.position k) ms reply x)
  sampled-Shares n c k ms (e, s) x width low inside h = rw (width) record {
    class = moved-class c k x.position h.class;
    times = λ i.
        times-append i x.results _
        ∙ ap (λ m. m + (if x.position k == i then 1 else 0)) (h.times i)
        ∙ moved-share n c k x.position i h.class low inside;
  }

  -- Nothing to do for the client
  abbrev is_idle : ℕ → Clients A S → Bool
  is_idle k x =
      not (ltb k (pos_part cfg.concurrency))
      || x.returned k
      || not (ltb (x.position k) (pos_part cfg.requests))

  watched-Shares :
      (n c : ℕ) (ended : Bool) (elapsed : A) (reply : Result Observed × S) (x : Clients A S)
      → Shares n c x
      → Shares n c (watched cl cfg prefix ended elapsed reply x)
  watched-Shares n c true elapsed (r, s) x h = record { class = h.class; times = h.times }
  watched-Shares n c false elapsed (r, s) x h = record { class = h.class; times = h.times }

  turn-Shares :
      (n c : ℕ) (t : Turn A) (x : Clients A S)
      → pos_part cfg.requests ≡ n
      → pos_part cfg.concurrency ≡ c
      → Shares n c x
      → Shares n c (turn cl cfg prefix t x)
  unfolding client_turn monitor_turn
  turn-Shares n c (tick ended elapsed) x many width h =
      either x.is_watching h (watched-Shares n c ended elapsed _ x h)
  turn-Shares n c (attempt k true ms) x many width h = elim (Bool-cases (is_idle k x)) [
    | inl y ↦ rw (y) h
    | inr y ↦ rw (y) record { class = h.class; times = h.times }
  ]
  turn-Shares n c (attempt k false ms) x many width h = elim (Bool-cases (is_idle k x)) [
    | inl y ↦ rw (y) h
    | inr y ↦
        let (low, inside) = unguarded _ (x.returned k) _ y in
        rw (y) (sampled-Shares n c k ms _ x width (ground (arith, width)) (ground (arith, many)) h)
  ]

  turns-Shares :
      (n c : ℕ) (ts : List (Turn A)) (x : Clients A S)
      → pos_part cfg.requests ≡ n
      → pos_part cfg.concurrency ≡ c
      → Shares n c x
      → Shares n c (turns cl cfg prefix ts x)
  unfolding turns
  turns-Shares n c [] x many width h = h
  turns-Shares n c (t ∷ ts) x many width h =
      turns-Shares n c ts (turn cl cfg prefix t x) many width (turn-Shares n c t x many width h)

  start-Shares : (n c : ℕ) (s : S) → Shares n c (clients_at {A = A} s)
  start-Shares n c s = record {
    class = λ k low. mod-eq_of_lt low;
    times = λ i. ground (arith, mod-le i c);
  }

  -- Whatever the turns, an index below the number of requests was attempted once if its client has
  -- gone past it, and an index was not attempted otherwise.
  pub turns-share :
      (ts : List (Turn A)) (s : S) (i : ℕ)
      → let x = turns cl cfg prefix ts (clients_at s) in
        times i x.results ≡ share (pos_part cfg.requests) (pos_part cfg.concurrency) x.position i
  turns-share ts s i =
      (turns-Shares (pos_part cfg.requests) (pos_part cfg.concurrency) ts (clients_at s) refl refl
          (start-Shares _ _ s)).times
        i

  is_over-position :
      (n c : ℕ) (x : Clients A S) (k : ℕ)
      → is_over n c x ≡ true
      → k < c
      → x.returned k ≡ false
      → n ≤ x.position k
  is_over-position n zero x k over low busy = absurd (omega arith)
  is_over-position n (suc c) x k over low busy = elim (Bool-cases (k == c)) [
    | inl e ↦
        let same : k ≡ c = ground arith in
        let here : x.returned c ≡ false = ap x.returned (sym same) ∙ busy in
        rw (same) (ground (arith, here))
    | inr e ↦ is_over-position n c x k (ground arith) (ground arith) busy
  ]

  -- When the clients, of which there is one at least, are done, and none met the end of the context,
  -- each request was attempted once.
  pub turns-once :
      (ts : List (Turn A)) (s : S) (i : ℕ)
      → let x = turns cl cfg prefix ts (clients_at s) in
        let c = pos_part cfg.concurrency in
        is_over (pos_part cfg.requests) c x ≡ true
        → ((k : ℕ) → k < c → x.returned k ≡ false)
        → 1 ≤ c
        → i < pos_part cfg.requests
        → times i x.results ≡ 1
  turns-once ts s i over busy some_client low =
      let x = turns cl cfg prefix ts (clients_at s) in
      let k = i % pos_part cfg.concurrency in
      let mine = mod-lt i some_client in
      ground (arith, turns-share ts s i, is_over-position _ _ x k over mine (busy k mine))
