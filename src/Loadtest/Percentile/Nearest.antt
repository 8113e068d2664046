-- ===== src/Loadtest/Percentile/Nearest.antt =====
-- cmd/loadtest/main.go: what `percentile` returns, by how many samples are up to it.
use usage_billing.Prelude.{
  ℕ, zero, suc, ◌+◌, ◌-◌, ◌*◌, ◌/◌, Bool, true, false, not, Option, some, List, [], ◌∷◌, All,
  length, if◌then◌else◌, ◌≤◌, ◌<◌, ◌≡◌, refl, ap, sym, ◌∙◌, arith, Bool-cases, inl, inr,
}
use usage_billing.Loadtest.Percentile.{p95, p99, insert, sort, get_elem?, percentile}
use usage_billing.Loadtest.Percentile.Rank.{rank-exact}

-- A comparison of any two samples, as `<=` is on float64 less NaN.
pub record IsOrder {A : Type 0} (leq : A → A → Bool) : Type 0 where
  pub total : (x y : A) → leq x y ≡ false → leq y x ≡ true
  pub trans : (x y z : A) → leq x y ≡ true → leq y z ≡ true → leq x z ≡ true

module _ {A : Type 0} where
  abbrev pub count : (A → Bool) → List A → ℕ
  count p [] = 0
  count p (x ∷ xs) = (if p x then 1 else 0) + count p xs

module _ {A : Type 0} (leq : A → A → Bool) where
  abbrev IsAbove : A → A → Type 0
  IsAbove x y = leq x y ≡ true

  abbrev IsSorted : List A → Type 0
  IsSorted [] = Unit
  IsSorted (x ∷ xs) = All (IsAbove x) xs × IsSorted xs

  count-insert : (p : A → Bool) (x : A) (xs : List A) → count p (insert leq x xs) ≡ count p (x ∷ xs)
  unfolding insert
  count-insert p x [] = refl
  count-insert p x (y ∷ ys) = ground (arith, count-insert p x ys)

  count-sort : (p : A → Bool) (xs : List A) → count p (sort leq xs) ≡ count p xs
  unfolding sort
  count-sort p [] = refl
  count-sort p (x ∷ xs) =
      count-insert p x (sort leq xs) ∙ ap (λ n. (if p x then 1 else 0) + n) (count-sort p xs)

  All-insert : (P : A → Type 0) (x : A) (xs : List A) → P x → All P xs → All P (insert leq x xs)
  unfolding insert
  All-insert P x [] p ps = (p, tt)
  All-insert P x (y ∷ ys) p (q, ps) = elim (Bool-cases (leq x y)) [
    | inl h ↦ rw (h) (p, (q, ps))
    | inr h ↦ rw (h) (q, All-insert P x ys p ps)
  ]

  All_trans :
      IsOrder leq
      → (x y : A) (ys : List A) → leq x y ≡ true
      → All (IsAbove y) ys
      → All (IsAbove x) ys
  All_trans o x y [] h above = tt
  All_trans o x y (z ∷ zs) h (p, above) = (o.trans x y z h p, All_trans o x y zs h above)

  insert-IsSorted : IsOrder leq → (x : A) (xs : List A) → IsSorted xs → IsSorted (insert leq x xs)
  unfolding insert
  insert-IsSorted o x [] s = (tt, tt)
  insert-IsSorted o x (y ∷ ys) (above, s) = elim (Bool-cases (leq x y)) [
    | inl h ↦ rw (h) ((h, All_trans o x y ys h above), (above, s))
    | inr h ↦ rw (h) (All-insert (IsAbove y) x ys (o.total x y h) above, insert-IsSorted o x ys s)
  ]

  sort-IsSorted : IsOrder leq → (xs : List A) → IsSorted (sort leq xs)
  unfolding sort
  sort-IsSorted o [] = tt
  sort-IsSorted o (x ∷ xs) = insert-IsSorted o x (sort leq xs) (sort-IsSorted o xs)

  -- The sample of a rank: so many samples are up to it, and fewer are below it.
  pub record IsRanked (k : ℕ) (xs : List A) (v : A) : Type 0 where
    pub up_to : k ≤ count (λ x. leq x v) xs
    pub below : count (λ x. not (leq v x)) xs < k

  no_above : (x : A) (xs : List A) → All (IsAbove x) xs → count (λ y. not (leq x y)) xs ≡ 0
  no_above x [] above = refl
  no_above x (y ∷ ys) (h, above) = ground (arith, no_above x ys above)

  reflexive : IsOrder leq → (x : A) → leq x x ≡ true
  reflexive o x = elim (Bool-cases (leq x x)) [ inl h ↦ h | inr h ↦ o.total x x h ]

  some-All : (P : A → Type 0) {x v : A} → P x → (◌≡◌ {A = Option A} (some x) (some v)) → P v
  some-All P {x} {v} p h = let e : x ≡ v = cc in rw (← e) p

  All-get_elem? :
      (P : A → Type 0) (xs : List A) (i : ℕ) {v : A} → All P xs → get_elem? xs i ≡ some v → P v
  All-get_elem? P [] i ps h = absurd (ground arith)
  All-get_elem? P (x ∷ xs) zero (p, ps) h = some-All P p h
  All-get_elem? P (x ∷ xs) (suc i) (p, ps) h = All-get_elem? P xs i ps h

  ranked :
      IsOrder leq
      → (xs : List A) (i : ℕ) → i < length xs
      → IsSorted xs
      → (v : A) × (get_elem? xs i ≡ some v) × IsRanked (suc i) xs v
  ranked o [] i h s = absurd (omega arith)
  ranked o (x ∷ xs) zero h (above, s) = (
    x,
    refl,
    record {
      up_to = rw (reflexive o x) (omega arith);
      below = rw (reflexive o x, no_above x xs above) (omega arith);
    },
  )
  ranked o (x ∷ xs) (suc i) h (above, s) =
      let (v, e, r) = ranked o xs i (omega arith) s in
      let up = All-get_elem? (IsAbove x) xs i above e in
      (v, e, record { up_to = ground (arith, r.up_to); below = ground (arith, r.below) })

  length-count : (xs : List A) → count (λ x. true) xs ≡ length xs
  length-count [] = refl
  length-count (x ∷ xs) = omega (arith, length-count xs)

  length-sort : (xs : List A) → length (sort leq xs) ≡ length xs
  length-sort xs = sym (length-count (sort leq xs)) ∙ count-sort (λ x. true) xs ∙ length-count xs

  IsRanked-sort :
      IsOrder leq
      → (xs : List A) (k : ℕ) → 1 ≤ k
      → k ≤ length xs
      → (v : A) × (get_elem? (sort leq xs) (k - 1) ≡ some v) × IsRanked k xs v
  IsRanked-sort o xs k low high =
      let (v, e, r) =
        ranked o (sort leq xs) (k - 1) (omega (arith, length-sort xs)) (sort-IsSorted o xs) in
      (
        v,
        e,
        record {
          up_to = omega (arith, r.up_to, count-sort (λ x. leq x v) xs);
          below = omega (arith, r.below, count-sort (λ x. not (leq v x)) xs);
        },
      )

  -- Of one to 10000 samples in an order, a bound that `validate` sets, `percentile` returns a sample, without a
  -- panic: the one of rank ⌈95n/100⌉ for .95 and of rank ⌈99n/100⌉ for .99, whatever float64 rounds.
  pub percentile-IsRanked :
      IsOrder leq
      → (none_yet : A) (xs : List A) → 1 ≤ length xs
      → length xs ≤ 10000
      → ((v : A) × (percentile leq p95 none_yet xs ≡ some v)
          × IsRanked ((95 * length xs + 99) / 100) xs v)
        × ((v : A) × (percentile leq p99 none_yet xs ≡ some v)
            × IsRanked ((99 * length xs + 99) / 100) xs v)
  unfolding percentile
  percentile-IsRanked o none_yet [] low high = absurd (omega arith)
  percentile-IsRanked o none_yet (x ∷ xs) low high =
      let (r95, r99) = rank-exact (length (x ∷ xs)) low high in
      rw (r95, r99)
        (
          IsRanked-sort o (x ∷ xs) _ (omega arith) (omega arith),
          IsRanked-sort o (x ∷ xs) _ (omega arith) (omega arith),
        )
