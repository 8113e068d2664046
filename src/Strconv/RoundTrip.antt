-- ===== src/Strconv/RoundTrip.antt =====
-- Printing an int64 and reading it back.
use usage_billing.Prelude.{
  ℕ, zero, suc, ◌+◌, ◌/◌, ◌%◌, ◌≤◌, ◌<◌, Bytes, some, [], ◌∷◌, ltb, Bool-cases, inl, inr, ◌≡◌,
  arith,
}
use usage_billing.Prelude.Int.{ℤ, pos, negsuc, IsInt64, max_int64}
use usage_billing.Strconv.{emit_digits, format_uint, format_int, scan_digits, magnitude, parse_int}

scan-emit :
    (fuel n : ℕ) (out : Bytes)
    → n < fuel
    → scan_digits (emit_digits fuel n out) 0 ≡ scan_digits out n
unfolding emit_digits scan_digits
scan-emit zero n out h = absurd (omega arith)
scan-emit (suc fuel) n out h = ground (arith, scan-emit fuel (n / 10) ((b'0' + n % 10) ∷ out))

emit-cons :
    (fuel n : ℕ) (out : Bytes)
    → n < fuel
    → (c : ℕ) × (s : Bytes) × (emit_digits fuel n out ≡ c ∷ s) × (b'0' ≤ c) × (c ≤ b'9')
unfolding emit_digits
emit-cons zero n out h = absurd (omega arith)
emit-cons (suc fuel) n out h = elim (Bool-cases (ltb n 10)) [
  | inl last ↦ (b'0' + n, out, rw last, omega arith, ground arith)
  | inr more ↦ rw more (emit-cons fuel (n / 10) ((b'0' + n % 10) ∷ out) (ground arith))
]

format_uint-cons :
    (n : ℕ) → (c : ℕ) × (s : Bytes) × (format_uint n ≡ c ∷ s) × (b'0' ≤ c) × (c ≤ b'9')
unfolding format_uint
format_uint-cons n = emit-cons (suc n) n [] (omega arith)

scan-format : (n : ℕ) → scan_digits (format_uint n) 0 ≡ some n
unfolding format_uint scan_digits
scan-format n = scan-emit (suc n) n [] (omega arith)

magnitude-format : (n : ℕ) → magnitude (format_uint n) ≡ some n
unfolding magnitude
magnitude-format n = let (c, s, e, lo, hi) = format_uint-cons n in rw e (rw e at (scan-format n))

parse_int_digits :
    (n : ℕ) (c : ℕ) (s : Bytes)
    → b'0' ≤ c
    → c ≤ b'9'
    → magnitude (c ∷ s) ≡ some n
    → n ≤ max_int64
    → parse_int (c ∷ s) ≡ some (pos n)
unfolding parse_int
parse_int_digits n c s lo hi e h = ground arith

-- Reading back the printed form of an int64 gives that int64.
pub parse_int-format_int : (z : ℤ) → IsInt64 z → parse_int (format_int z) ≡ some z
unfolding format_int
parse_int-format_int (negsuc n) h = unfold parse_int in ground (arith, magnitude-format (suc n))
parse_int-format_int (pos n) h =
    let (c, s, e, lo, hi) = format_uint-cons n in
    rw e (parse_int_digits n c s lo hi (rw e at (magnitude-format n)) h.0)
