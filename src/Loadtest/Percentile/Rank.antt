-- ===== src/Loadtest/Percentile/Rank.antt =====
-- cmd/loadtest/main.go: the rank that `percentile` takes of up to 10000 samples, the bound of
-- `validate`, is the exact one.
use usage_billing.Prelude.{
  ℕ, zero, suc, ◌+◌, ◌*◌, ◌/◌, List, [], ◌∷◌, All, ltb, ◌≤◌, ◌<◌, ◌≡◌, arith, Bool-cases, inl, inr,
}
use usage_billing.Loadtest.Percentile.{p95, p99, last_unit, rounded, scaled, rank}

abbrev doubles : ℕ → ℕ → List ℕ
doubles zero unit = []
doubles (suc k) unit = unit ∷ doubles k (unit * 2)

abbrev last_double : ℕ → ℕ → ℕ
last_double zero unit = unit
last_double (suc k) unit = last_double k (unit * 2)

-- What holds of every unit that fits the product holds of its last unit.
pick :
    (Good : ℕ → Type 0) (product k fuel unit : ℕ)
    → k ≤ fuel
    → unit * 4503599627370496 ≤ product
    → product < last_double k unit * 4503599627370496
    → All
        (λ u. product < u * 9007199254740992 → u * 4503599627370496 ≤ product → Good u)
        (doubles k unit)
    → Good (last_unit fuel unit product)
unfolding last_unit
pick Good product zero fuel unit enough low high goods = absurd (omega arith)
pick Good product (suc k) zero unit enough low high goods = absurd (omega arith)
pick Good product (suc k) (suc fuel) unit enough low high (good, goods) =
    elim (Bool-cases (ltb product (unit * 9007199254740992))) [
      | inl y ↦ rw (y) (good (ground arith) low)
      | inr n ↦ rw (n) (pick Good product k fuel (unit * 2) (omega arith) (ground arith) high goods)
    ]

abbrev IsExact : ℕ → ℕ → ℕ → ℕ → Type 0
IsExact q percent n unit =
    (rounded (q * n) unit + 9007199254740991) / 9007199254740992 ≡ (percent * n + 99) / 100

exact95 :
    (n : ℕ)
    → 1 ≤ n
    → n ≤ 10000
    → All
        (λ u. p95 * n < u * 9007199254740992 → u * 4503599627370496 ≤ p95 * n → IsExact p95 95 n u)
        (doubles 15 1)
exact95 n low high = ground arith

exact99 :
    (n : ℕ)
    → 1 ≤ n
    → n ≤ 10000
    → All
        (λ u. p99 * n < u * 9007199254740992 → u * 4503599627370496 ≤ p99 * n → IsExact p99 99 n u)
        (doubles 15 1)
exact99 n low high = ground arith

pub rank-exact :
    (n : ℕ)
    → 1 ≤ n
    → n ≤ 10000
    → (rank p95 n ≡ (95 * n + 99) / 100) × (rank p99 n ≡ (99 * n + 99) / 100)
unfolding rank scaled
rank-exact n low high = (
  pick (IsExact p95 95 n) (p95 * n) 15 64 1 (omega arith) (omega arith) (omega arith)
      (exact95 n low high),
  pick (IsExact p99 99 n) (p99 * n) 15 64 1 (omega arith) (omega arith) (omega arith)
      (exact99 n low high),
)
