-- ===== src/RequestId/Laws.antt =====
-- What a request identifier looks like when it reaches a log or a context.
use usage_billing.Prelude.{
  ℕ, ◌+◌, ◌*◌, ◌/◌, ◌%◌, ◌≤◌, ◌<◌, Bytes, Option, some, [], ◌∷◌, length, ◌==◌, ==_iff, All, ◌≡◌,
  ◌⊎◌, inl, inr, refl, arith, Bool-cases, Option-cases,
}
use usage_billing.RequestId.{hex_digit, encode, from_hex, join_digits, decode, new, for_log}

-- One of the bytes 0-9 and a-f.
abbrev pub IsHexDigit : ℕ → Type 0
IsHexDigit c = ((b'0' ≤ c) × (c ≤ b'9')) ⊎ ((b'a' ≤ c) × (c ≤ b'f'))

abbrev pub IsByte : ℕ → Type 0
IsByte b = b < 256

-- 32 lowercase hexadecimal digits.
abbrev pub IsRequestId : Bytes → Type 0
IsRequestId id = (length id ≡ 32) × All IsHexDigit id

from_hex-hex_digit : (n : ℕ) → n < 16 → from_hex (hex_digit n) ≡ some n
unfolding from_hex hex_digit
from_hex-hex_digit n h = ground arith

from_hex-lt : (c n : ℕ) → from_hex c ≡ some n → n < 16
unfolding from_hex
from_hex-lt c n h = ground arith

hex_digit-IsHexDigit : (n : ℕ) → n < 16 → IsHexDigit (hex_digit n)
unfolding hex_digit
hex_digit-IsHexDigit n h = ground arith

pub decode-encode : (raw : Bytes) → All IsByte raw → decode (encode raw) ≡ some raw
unfolding encode decode
decode-encode [] h = refl
decode-encode (b ∷ raw) (p, h) =
    ground (arith, from_hex-hex_digit (b / 16), from_hex-hex_digit (b % 16), decode-encode raw h)

pub encode-IsHexDigit : (raw : Bytes) → All IsByte raw → All IsHexDigit (encode raw)
unfolding encode
encode-IsHexDigit [] h = tt
encode-IsHexDigit (b ∷ raw) (p, h) = (
  hex_digit-IsHexDigit (b / 16) (omega arith),
  (hex_digit-IsHexDigit (b % 16) (omega arith), encode-IsHexDigit raw h),
)

pub length-encode : (raw : Bytes) → length (encode raw) ≡ 2 * length raw
unfolding encode
length-encode [] = refl
length-encode (b ∷ raw) = omega (arith, length-encode raw)

join_digits_inv :
    (hi lo : Option ℕ) (rest : Option Bytes) (raw : Bytes)
    → join_digits hi lo rest ≡ some raw
    → (h : ℕ) × (l : ℕ) × (r : Bytes) × (hi ≡ some h)
      × (lo ≡ some l)
      × (rest ≡ some r)
      × (raw ≡ (h * 16 + l) ∷ r)
join_digits_inv (some h) (some l) (some r) raw e = (h, l, r, refl, refl, refl, cc)
join_digits_inv _ _ _ raw e = cc

decode_bytes : (s raw : Bytes) → decode s ≡ some raw → All IsByte raw × (length s ≡ 2 * length raw)
unfolding decode
decode_bytes [] raw h = let e : [] ≡ raw = cc in rw (← e) (tt, refl)
decode_bytes (a ∷ []) raw h = cc
decode_bytes (a ∷ b ∷ s) raw h =
    let (hi, lo, r, p, q, t, e) = join_digits_inv (from_hex a) (from_hex b) (decode s) raw h in
    let (bytes, len) = decode_bytes s r t in
    rw e ((omega (arith, from_hex-lt a hi p, from_hex-lt b lo q), bytes), omega arith)

-- Whatever text a row or a context holds, what is logged is empty or 32 lowercase hexadecimal
-- digits.
pub for_log_bounded : (id : Bytes) → (for_log id ≡ []) ⊎ IsRequestId (for_log id)
unfolding for_log
for_log_bounded id = elim (Bool-cases (length id == 32)) [
  | inr other ↦ rw other (inl refl)
  | inl fits ↦ elim (Option-cases (decode id)) [
    | inl bad ↦ rw (fits, bad) (inl refl)
    | inr (raw, good) ↦
        let (bytes, len) = decode_bytes id raw good in
        rw (fits, good)
          (inr (
            omega (arith, length-encode raw, (==_iff (length id) 32).0 fits),
            encode-IsHexDigit raw bytes,
          ))
  ]
]

-- An identifier that `New` makes from 16 random bytes is logged and stored in a context as it is.
pub for_log-new : (raw : Bytes) → All IsByte raw → length raw ≡ 16 → for_log (new raw) ≡ new raw
unfolding for_log new
for_log-new raw h n = ground (arith, length-encode raw, decode-encode raw h)

pub new-IsRequestId : (raw : Bytes) → All IsByte raw → length raw ≡ 16 → IsRequestId (new raw)
unfolding new
new-IsRequestId raw h n = (omega (arith, length-encode raw), encode-IsHexDigit raw h)
