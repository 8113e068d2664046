-- ===== src/Loadtest/Percentile.antt =====
-- cmd/loadtest/main.go: `percentile`, the nearest rank of float64 arithmetic.
pub mod Rank
pub mod Nearest
use usage_billing.Prelude.{
  ℕ, zero, suc, ◌+◌, ◌-◌, ◌*◌, ◌/◌, ◌%◌, ◌^◌, Bool, true, false, ◌&&◌, ◌||◌, Option, none, some,
  List, [], ◌∷◌, length, ltb, leb, ◌==◌, if◌then◌else◌, ◌≤◌, ◌≡◌, refl, arith,
}

-- A float64 between 1/2 and 1 is its 53 bits over 2 ^ 53: those of .95 and of .99.
abbrev pub p95 : ℕ
p95 = 8556839292003942

abbrev pub p99 : ℕ
p99 = 8917127262193582

-- The unit in the last of the 53 bits that are kept of a product: doubled until they hold it.
unfoldable pub last_unit : ℕ → ℕ → ℕ → ℕ
last_unit zero unit product = unit
last_unit (suc fuel) unit product =
    let rest = last_unit fuel (unit * 2) product in
    if ltb product (unit * 9007199254740992) then unit else rest

-- To the nearest multiple of the unit, and to the even one of two.
abbrev pub rounded : ℕ → ℕ → ℕ
rounded product unit =
    let below = product / unit in
    let over = product % unit in
    (if ltb unit (over * 2) || (over * 2 == unit && below % 2 == 1) then below + 1 else below)
    * unit

-- `q * float64(n)` over 2 ^ 53; a product of up to 2 ^ 117 has its unit among the first 64.
unfoldable pub scaled : ℕ → ℕ → ℕ
scaled q n = rounded (q * n) (last_unit 64 1 (q * n))

-- `int(math.Ceil(q * float64(n)))`
unfoldable pub rank : ℕ → ℕ → ℕ
rank q n = (scaled q n + 9007199254740991) / 9007199254740992

tests :
    (rank p95 20 ≡ 19)
    × (rank p95 100 ≡ 95)
    × (rank p99 10000 ≡ 9900)
    × (rank p95 1 ≡ 1)
    × (rank p95 9999 ≡ 9500)
unfolding rank scaled last_unit
tests = (refl, refl, refl, refl, refl)

module _ {A : Type 0} where
  -- `sorted[i]`, of which `none` is a panic
  abbrev pub get_elem? : List A → ℕ → Option A
  get_elem? [] i = none
  get_elem? (x ∷ xs) zero = some x
  get_elem? (x ∷ xs) (suc i) = get_elem? xs i

-- The samples are of any type with an order, as float64 has it: `leb` is `<=`, and `none` is the 0 of
-- no samples. `slices.Sort` puts each sample before the first that is not below it.
module _ {A : Type 0} (leq : A → A → Bool) where
  unfoldable pub insert : A → List A → List A
  insert x [] = x ∷ []
  insert x (y ∷ ys) = let rest = insert x ys in if leq x y then x ∷ y ∷ ys else y ∷ rest

  unfoldable pub sort : List A → List A
  unfolding insert
  sort [] = []
  sort (x ∷ xs) = insert x (sort xs)

  -- The panic of an index out of range is `none`; so is the 0 of no samples.
  unfoldable pub percentile : ℕ → A → List A → Option A
  unfolding sort rank
  percentile q none_yet [] = some none_yet
  percentile q none_yet (x ∷ xs) = get_elem? (sort (x ∷ xs)) (rank q (length (x ∷ xs)) - 1)
