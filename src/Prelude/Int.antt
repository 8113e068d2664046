-- ===== src/Prelude/Int.antt =====
-- Go's int64: integers, and the two's complement reduction that its arithmetic makes.
use Prim.Native.Nat.{ℕ, suc, ◌+◌, ◌-◌, ◌*◌, ◌/◌, ◌%◌, ◌≤◌}
use mathlib.Core.Path.{◌≡◌}
use mathlib.Core.Logic.{◌↔◌}
use mathlib.Core.Bool.{Bool, true}
use native.Mathlib.Omega.{arith}
use usage_billing.Prelude.Tests.{ltb, leb, ◌==◌, if◌then◌else◌}

-- `negsuc n` is -(n + 1).
pub data ℤ : Type 0 where
  pos : ℕ → ℤ
  negsuc : ℕ → ℤ

abbrev pub pos_part : ℤ → ℕ
pos_part (pos n) = n
pos_part (negsuc n) = 0

abbrev pub neg_part : ℤ → ℕ
neg_part (pos n) = 0
neg_part (negsuc n) = suc n

abbrev pub sub_ℕ : ℕ → ℕ → ℤ
sub_ℕ a b = if leb b a then pos (a - b) else negsuc (b - a - 1)

infixl 65 ◌+ℤ◌
infixl 70 ◌*ℤ◌
infix 50 ◌≤ℤ◌ ◌==ℤ◌
unfoldable pub ◌+ℤ◌ : ℤ → ℤ → ℤ
a +ℤ b = sub_ℕ (pos_part a + pos_part b) (neg_part a + neg_part b)

unfoldable pub ◌*ℤ◌ : ℤ → ℤ → ℤ
a *ℤ b =
    sub_ℕ (pos_part a * pos_part b + neg_part a * neg_part b)
      (pos_part a * neg_part b + neg_part a * pos_part b)

abbrev pub ◌≤ℤ◌ : ℤ → ℤ → Type 0
a ≤ℤ b = pos_part a + neg_part b ≤ pos_part b + neg_part a

abbrev pub ltb_ℤ : ℤ → ℤ → Bool
ltb_ℤ a b = ltb (pos_part a + neg_part b) (pos_part b + neg_part a)

abbrev pub leb_ℤ : ℤ → ℤ → Bool
leb_ℤ a b = leb (pos_part a + neg_part b) (pos_part b + neg_part a)

abbrev pub ◌==ℤ◌ : ℤ → ℤ → Bool
a ==ℤ b = pos_part a + neg_part b == pos_part b + neg_part a

pub ==ℤ_iff : (a b : ℤ) → ((a ==ℤ b) ≡ true) ↔ (a ≡ b)
==ℤ_iff a b = ground arith

-- `math.MaxInt64`
abbrev pub max_int64 : ℕ
max_int64 = 9223372036854775807

abbrev pub u64_mod : ℕ
u64_mod = 18446744073709551616

abbrev pub IsInt64 : ℤ → Type 0
IsInt64 z = (pos_part z ≤ max_int64) × (neg_part z ≤ max_int64 + 1)

-- The bit pattern of an integer in 64 bits, and the int64 that a pattern stands for.
abbrev pub bits64 : ℤ → ℕ
bits64 (pos n) = n % u64_mod
bits64 (negsuc n) = u64_mod - 1 - n % u64_mod

abbrev pub signed64 : ℕ → ℤ
signed64 u = if leb u max_int64 then pos u else negsuc (u64_mod - 1 - u)

unfoldable pub wrap64 : ℤ → ℤ
wrap64 z = signed64 (bits64 z)

-- Arithmetic on int64 wraps around.
unfoldable pub mul64 : ℤ → ℤ → ℤ
mul64 a b = wrap64 (a *ℤ b)

unfoldable pub add64 : ℤ → ℤ → ℤ
add64 a b = wrap64 (a +ℤ b)

abbrev negate : ℕ → ℤ
negate n = sub_ℕ 0 n

-- `a / b`, which drops the fraction; a zero divisor, at which Go panics, gives 0 here.
unfoldable pub div64 : ℤ → ℤ → ℤ
div64 (pos a) (pos b) = pos (a / b)
div64 (pos a) (negsuc b) = negate (a / suc b)
div64 (negsuc a) (pos b) = negate (suc a / b)
div64 (negsuc a) (negsuc b) = wrap64 (pos (suc a / suc b))

pub wrap64_of_IsInt64 : (z : ℤ) → IsInt64 z → wrap64 z ≡ z
unfolding wrap64
wrap64_of_IsInt64 (pos n) h = ground arith
wrap64_of_IsInt64 (negsuc n) h = ground arith

pub wrap64-IsInt64 : (z : ℤ) → IsInt64 (wrap64 z)
unfolding wrap64
wrap64-IsInt64 z = ground arith

pub *ℤ-pos : (u r : ℕ) → pos u *ℤ pos r ≡ pos (u * r)
unfolding ◌*ℤ◌
*ℤ-pos u r = ground arith
