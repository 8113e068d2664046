-- ===== src/Billing/Identifiers.antt =====
-- Which identifiers `ValidateID` accepts.
use usage_billing.Prelude.{ℕ, ◌≤◌, Bytes, true, none, [], ◌∷◌, length, All, ◌≡◌, ◌↔◌, ◌⊎◌, arith}
use usage_billing.Billing.Service.{id_byte, validate_bytes, validate_id}

-- A byte of the pattern `[A-Za-z0-9_-]`.
abbrev pub IsIdByte : ℕ → Type 0
IsIdByte b =
    ((b'a' ≤ b) × (b ≤ b'z'))
    ⊎ ((b'A' ≤ b) × (b ≤ b'Z'))
    ⊎ ((b'0' ≤ b) × (b ≤ b'9'))
    ⊎ (b ≡ b'_')
    ⊎ (b ≡ b'-')

-- A text of the pattern `^[A-Za-z0-9_-]{1,64}$`.
abbrev pub IsIdentifier : Bytes → Type 0
IsIdentifier id = (1 ≤ length id) × (length id ≤ 64) × All IsIdByte id

pub id_byte_iff : (b : ℕ) → (id_byte b ≡ true) ↔ IsIdByte b
id_byte_iff b = ground arith

validate_bytes_sound : (s : Bytes) → validate_bytes s ≡ none → All IsIdByte s
unfolding validate_bytes
validate_bytes_sound [] h = tt
validate_bytes_sound (b ∷ s) h = ground (arith, id_byte_iff b, validate_bytes_sound s)

validate_bytes_complete : (s : Bytes) → All IsIdByte s → validate_bytes s ≡ none
unfolding validate_bytes
validate_bytes_complete [] h = ground arith
validate_bytes_complete (b ∷ s) (p, h) =
    ground (arith, (id_byte_iff b).1 p, validate_bytes_complete s h)

-- `ValidateID` accepts exactly the identifiers of one to 64 ASCII letters, digits, underscores and
-- hyphens.
pub validate_id_iff : (id : Bytes) → (validate_id id ≡ none) ↔ IsIdentifier id
unfolding validate_id
validate_id_iff id = (
  λ h. ground (arith, validate_bytes_sound id),
  λ h. ground (arith, validate_bytes_complete id h.2),
)
