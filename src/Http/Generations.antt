-- ===== src/Http/Generations.antt =====
-- internal/httpapi/httpapi.go: `decodeRetry` reads back what a client writes for a generation.
use usage_billing.Prelude.{Bytes, codes, same_refl, true, List, [], ◌∷◌, ◌≡◌, arith, ap, ◌∙◌}
use usage_billing.Prelude.Int.{ℤ, pos, ◌≤ℤ◌, IsInt64}
use usage_billing.Errors.{ok}
use usage_billing.Strconv.{format_int}
use usage_billing.Strconv.RoundTrip.{parse_int-format_int}
use usage_billing.Http.Decoding.{
  Token, delim, text, number, Reader, at_least_zero, generation_of, retry_tokens, decode_retry,
}

-- The tokens of the object whose one member is the generation.
abbrev pub generation_tokens : ℤ → List Token
generation_tokens g =
    delim b'{' ∷ text (codes "retry_generation") ∷ number (format_int g) ∷ delim b'}' ∷ []

read_back : (g : ℤ) → pos 0 ≤ℤ g → IsInt64 g → generation_of (number (format_int g)) ≡ ok g
read_back g low range = ap at_least_zero (parse_int-format_int g range) ∙ ground arith

-- A body in UTF-8 with exactly these tokens, for an int64 that is not negative in its decimal form,
-- decodes to that generation.
pub decode_retry-generation_tokens :
    (reader : Reader) (body : Bytes) (g : ℤ)
    → reader.valid body ≡ true
    → reader.tokens body ≡ generation_tokens g
    → pos 0 ≤ℤ g
    → IsInt64 g
    → decode_retry reader body ≡ ok g
unfolding decode_retry
decode_retry-generation_tokens reader body g v t low range =
    rw (v, t)
      (unfold retry_tokens in (rw (same_refl (codes "retry_generation")) (read_back g low range)))
