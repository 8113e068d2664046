-- ===== src/Exposition.antt =====
-- The text format in which internal/httpapi/httpapi.go and internal/telemetry/metrics.go expose
-- metrics, line by line, and how a reader finds a sample in it.
pub mod Lines
use usage_billing.Prelude.{
  ℕ, String, Bytes, codes, Bool, ◌&&◌, Option, none, some, List, [], ◌∷◌, ◌++◌, ◌==◌, if◌then◌else◌,
}
use usage_billing.Strconv.{format_uint, format_int}

-- Lines written to a `strings.Builder`, each with its newline.
unfoldable pub text_of : List Bytes → Bytes
text_of [] = []
text_of (line ∷ lines) = line ++ b'\n' ∷ text_of lines

-- `writeUint` and `writeInt`, without the newline
abbrev pub uint_line : String → ℕ → Bytes
uint_line prefix n = codes prefix ++ format_uint n

abbrev pub push_first : ℕ → List Bytes → List Bytes
push_first c [] = (c ∷ []) ∷ []
push_first c (l ∷ lines) = (c ∷ l) ∷ lines

-- The lines of a text that ends in a newline.
unfoldable pub lines_of : Bytes → List Bytes
lines_of [] = []
lines_of (c ∷ s) = let rest = lines_of s in if c == b'\n' then [] ∷ rest else push_first c rest

-- What follows a prefix.
unfoldable pub after_prefix : Bytes → Bytes → Option Bytes
after_prefix [] s = some s
after_prefix (a ∷ p) [] = none
after_prefix (a ∷ p) (c ∷ s) = let rest = after_prefix p s in if a == c then rest else none

abbrev pub or_else : Option Bytes → Option Bytes → Option Bytes
or_else none o = o
or_else (some v) o = some v

-- The value of the first sample with that name and those labels.
unfoldable pub sample_in : Bytes → List Bytes → Option Bytes
sample_in name [] = none
sample_in name (line ∷ lines) =
    or_else (after_prefix (name ++ b' ' ∷ []) line) (sample_in name lines)

unfoldable pub sample : Bytes → Bytes → Option Bytes
unfolding lines_of sample_in
sample name text = sample_in name (lines_of text)
