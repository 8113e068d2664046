-- ===== src/RequestId.antt =====
-- internal/requestid/requestid.go. The 16 bytes that `rand.Read` delivers are an argument; a failed
-- read panics and has no result.
pub mod Laws
mod Tests
use usage_billing.Prelude.{
  ℕ, ◌+◌, ◌-◌, ◌*◌, ◌/◌, ◌%◌, Bytes, codes, Bool, not, Option, none, some, [], ◌∷◌, length, ltb,
  leb, ◌&&◌, ◌==◌, if◌then◌else◌,
}

-- `hex.EncodeToString`
unfoldable pub hex_digit : ℕ → ℕ
hex_digit n = if ltb n 10 then b'0' + n else b'a' - 10 + n

unfoldable pub encode : Bytes → Bytes
encode [] = []
encode (b ∷ bs) = hex_digit (b / 16) ∷ hex_digit (b % 16) ∷ encode bs

-- The value of a hexadecimal digit, of either case.
unfoldable pub from_hex : ℕ → Option ℕ
from_hex c =
    if leb b'0' c && leb c b'9'
    then some (c - b'0')
    else if leb b'a' c && leb c b'f'
    then some (c - b'a' + 10)
    else if leb b'A' c && leb c b'F'
    then some (c - b'A' + 10)
    else none

abbrev pub join_digits : Option ℕ → Option ℕ → Option Bytes → Option Bytes
join_digits (some hi) (some lo) (some rest) = some ((hi * 16 + lo) ∷ rest)
join_digits _ _ _ = none

-- `hex.DecodeString`
unfoldable pub decode : Bytes → Option Bytes
decode [] = some []
decode (a ∷ []) = none
decode (a ∷ b ∷ s) = join_digits (from_hex a) (from_hex b) (decode s)

-- `New`, on the random bytes
unfoldable pub new : Bytes → Bytes
new raw = encode raw

abbrev encoded : Option Bytes → Bytes
encoded none = []
encoded (some raw) = encode raw

unfoldable pub for_log : Bytes → Bytes
for_log id = if not (length id == 32) then [] else encoded (decode id)

-- A context, as far as this package stores into it: its own key holds a text or nothing.
pub record Context : Type 0 where
  pub value : Option Bytes

unfoldable pub with_context : Context → Bytes → Context
unfolding for_log
with_context ctx id = record ctx { value = some (for_log id) }

abbrev text_of : Option Bytes → Bytes
text_of none = []
text_of (some id) = id

unfoldable pub from_context : Context → Bytes
from_context ctx = text_of ctx.value
