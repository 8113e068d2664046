-- ===== src/Strconv.antt =====
-- strconv.FormatInt and strconv.ParseInt in base ten, which config.go, httpapi.go, metrics.go and
-- main.go of the load test call, and the text of a PostgreSQL numeric.
pub mod RoundTrip
use usage_billing.Prelude.{
  ℕ, zero, suc, ◌+◌, ◌-◌, ◌*◌, ◌/◌, ◌%◌, ◌<◌, Bytes, codes, Bool, ◌||◌, Option, none, some, [], ◌∷◌,
  ltb, leb, ◌==◌, if◌then◌else◌, ◌≡◌, refl, arith,
}
use usage_billing.Prelude.Int.{ℤ, pos, negsuc, max_int64}

-- The digits of `n` before `out`; each round takes off the last one, so `n + 1` rounds are enough.
unfoldable pub emit_digits : ℕ → ℕ → Bytes → Bytes
emit_digits zero n out = out
emit_digits (suc fuel) n out =
    let rest = emit_digits fuel (n / 10) ((b'0' + n % 10) ∷ out) in
    if ltb n 10 then (b'0' + n) ∷ out else rest

unfoldable pub format_uint : ℕ → Bytes
unfolding emit_digits
format_uint n = emit_digits (suc n) n []

unfoldable pub format_int : ℤ → Bytes
format_int (pos n) = format_uint n
format_int (negsuc n) = b'-' ∷ format_uint (suc n)

-- The digits read on top of `n`; `none` is a syntax error.
scan_digits : Bytes → ℕ → Option ℕ
scan_digits [] n = some n
scan_digits (c ∷ s) n =
    if ltb c b'0' || ltb b'9' c then none else scan_digits s (n * 10 + (c - b'0'))

pub magnitude : Bytes → Option ℕ
unfolding scan_digits
magnitude [] = none
magnitude (c ∷ s) = scan_digits (c ∷ s) 0

abbrev positive : Option ℕ → Option ℤ
positive none = none
positive (some n) = if leb n max_int64 then some (pos n) else none

abbrev negative : Option ℕ → Option ℤ
negative none = none
negative (some zero) = some (pos 0)
negative (some (suc n)) = if leb n max_int64 then some (negsuc n) else none

-- `strconv.ParseInt(s, 10, 64)`; `none` is a syntax or a range error.
unfoldable pub parse_int : Bytes → Option ℤ
parse_int [] = none
parse_int (c ∷ s) =
    if c == b'+'
    then positive (magnitude s)
    else if c == b'-'
    then negative (magnitude s)
    else positive (magnitude (c ∷ s))

tests :
    (format_int (negsuc 1023) ≡ codes "-1024")
    × (parse_int (codes "9223372036854775807") ≡ some (pos max_int64))
    × (parse_int (codes "9223372036854775808") ≡ none)
    × (parse_int (codes "-9223372036854775808") ≡ some (negsuc max_int64))
    × (parse_int (codes "+07") ≡ some (pos 7))
    × (parse_int (codes "-") ≡ none)
    × (parse_int (codes "1_0") ≡ none)
unfolding format_int format_uint parse_int magnitude
tests = (refl, refl, refl, refl, refl, refl, refl)
