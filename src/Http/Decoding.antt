-- ===== src/Http/Decoding.antt =====
-- internal/httpapi/httpapi.go: `decodeRetry` and `decodeInput` over what the decoder of
-- encoding/json delivers for a body.
use usage_billing.Prelude.{
  ℕ, Bytes, codes, same, Bool, false, not, ◌&&◌, ◌||◌, Option, none, some, List, [], ◌∷◌, length,
  ◌==◌, if◌then◌else◌,
}
use usage_billing.Prelude.Int.{ℤ, pos, ltb_ℤ}
use usage_billing.Errors.{sentinel, invalid, Result, ok, err}
use usage_billing.Strconv.{parse_int}
use usage_billing.Billing.{Input}

-- What a call of `Token` returns: a delimiter, a text, a number as its text, another token, or a
-- syntax error.
pub data Token : Type 0 where
  delim : ℕ → Token
  text number : Bytes → Token
  other bad : Token

-- A raw value: whether it is `null`, and what `Unmarshal` makes of it for a string and an int64.
pub record Raw : Type 0 where
  pub is_null : Bool
  pub as_text : Option Bytes
  pub as_int64 : Option ℤ

-- A body as `decodeInput` reads it: the first token; while `More` holds, a token and a raw value,
-- which is `none` on an error; and the tokens after that, up to the end of the input.
pub record Document : Type 0 where
  pub opening : Token
  pub members : List (Token × Option Raw)
  pub closing : List Token

-- utf8.Valid and encoding/json on a body.
pub record Reader : Type 0 where
  pub valid : Bytes → Bool
  pub tokens : Bytes → List Token
  pub document : Bytes → Document

abbrev pub is_delim : ℕ → Token → Bool
is_delim c (delim d) = c == d
is_delim c _ = false

abbrev pub is_text : Bytes → Token → Bool
is_text s (text t) = same t s
is_text s _ = false

abbrev pub at_least_zero : Option ℤ → Result ℤ
at_least_zero none = err (sentinel invalid)
at_least_zero (some n) = if ltb_ℤ n (pos 0) then err (sentinel invalid) else ok n

abbrev pub generation_of : Token → Result ℤ
generation_of (number n) = at_least_zero (parse_int n)
generation_of _ = err (sentinel invalid)

-- Every refusal is the same error.
unfoldable pub retry_tokens : List Token → Result ℤ
retry_tokens (opening ∷ key ∷ value ∷ closing ∷ []) =
    if is_delim b'{' opening && is_text (codes "retry_generation") key && is_delim b'}' closing
    then generation_of value
    else err (sentinel invalid)
retry_tokens _ = err (sentinel invalid)

unfoldable pub decode_retry : Reader → Bytes → Result ℤ
unfolding retry_tokens
decode_retry reader data_read =
    if not (reader.valid data_read)
    then err (sentinel invalid)
    else retry_tokens (reader.tokens data_read)

abbrev pub with_text : (Bytes → Input) → Option Bytes → Option Input
with_text set none = none
with_text set (some s) = some (set s)

abbrev pub with_units : Input → Option ℤ → Option Input
with_units input none = none
with_units input (some n) = some (record input { units = n })

-- The `switch` on the key, with the assignment to its target.
unfoldable pub assign : Bytes → Raw → Input → Option Input
assign key raw input =
    if raw.is_null
    then none
    else if same key (codes "event_id")
    then with_text (λ s. record input { event_id = s }) raw.as_text
    else if same key (codes "customer_id")
    then with_text (λ s. record input { customer_id = s }) raw.as_text
    else if same key (codes "meter")
    then with_text (λ s. record input { meter = s }) raw.as_text
    else if same key (codes "units")
    then with_units input raw.as_int64
    else none

abbrev pub is_seen : List Bytes → Bytes → Bool
is_seen [] key = false
is_seen (k ∷ seen) key = same k key || is_seen seen key

abbrev pub pushed : Bytes → List Bytes → Option Input → Option (List Bytes × Input)
pushed key seen none = none
pushed key seen (some input) = some (key ∷ seen, input)

-- One member, on the keys seen and the input so far.
abbrev pub read_member : Token × Option Raw → List Bytes → Input → Option (List Bytes × Input)
read_member (text key, some raw) seen input =
    if is_seen seen key then none else pushed key seen (assign key raw input)
read_member _ seen input = none

-- the loop of `decodeInput`
unfoldable pub read_members :
    List (Token × Option Raw) → List Bytes → Input → Option (List Bytes × Input)
unfolding assign
read_members [] seen input = some (seen, input)
read_members (m ∷ members) seen input = elim (read_member m seen input) [
  | none ↦ none
  | some (seen', input') ↦ read_members members seen' input'
]

abbrev pub ends : List Token → Bool
ends (t ∷ []) = is_delim b'}' t
ends _ = false

abbrev pub zero_input : Input
zero_input = record { event_id = []; customer_id = []; meter = []; units = pos 0 }

abbrev pub complete : Option (List Bytes × Input) → List Token → Result Input
complete none closing = err (sentinel invalid)
complete (some (seen, input)) closing =
    if ends closing && length seen == 4 then ok input else err (sentinel invalid)

unfoldable pub decode_input : Reader → Bytes → Result Input
unfolding read_members
decode_input reader data_read =
    let d = reader.document data_read in
    if not (reader.valid data_read) || not (is_delim b'{' d.opening)
    then err (sentinel invalid)
    else complete (read_members d.members [] zero_input) d.closing
