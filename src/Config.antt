-- ===== src/Config.antt =====
-- cmd/usage-billing/config.go. The environment, `time.ParseDuration` and `net.SplitHostPort` are
-- arguments.
pub mod Starting
pub mod Tests
use usage_billing.Prelude.{
  ℕ, String, Bytes, codes, same, Bool, true, false, not, ◌&&◌, ◌||◌, Option, none, some, List, [],
  ◌∷◌, length, all, ltb, leb, ◌==◌, if◌then◌else◌,
}
use usage_billing.Prelude.Int.{ℤ, pos, leb_ℤ, ltb_ℤ}
use usage_billing.Errors.{Error, message, Result, ok, err}
use usage_billing.Strconv.{parse_int}

-- What the process finds around it: a variable that is not set is the empty text; a duration is in
-- nanoseconds, and `none` is a syntax error; whether an address has a host and a port.
pub record Environment : Type 0 where
  pub variable : Bytes → Bytes
  pub duration : Bytes → Option ℤ
  pub host_and_port : Bytes → Bool

pub record Settings : Type 0 where
  pub database_url : Bytes
  pub token : Bytes
  pub http_addr : Bytes
  pub rate_micros : ℤ
  pub worker_interval : ℤ
  pub worker_batch : ℤ
  pub max_pending_events : ℤ

-- The rest of a body, after a test or a setting that may return an error.
unfoldable pub and_then : {A B : Type 0} → Result A → (A → Result B) → Result B
and_then (ok a) f = f a
and_then (err e) f = err e

infixl 5 ◌>>=◌ ◌>>◌
abbrev pub ◌>>=◌ : {A B : Type 0} → Result A → (A → Result B) → Result B
m >>= f = and_then m f

abbrev pub ◌>>◌ : {A B : Type 0} → Result A → Result B → Result B
m >> k = m >>= λ _. k

-- `if b { return e }`
abbrev pub refuse_if : Bool → String → Result (Unit {0})
refuse_if true text = err (message text)
refuse_if false text = ok tt

-- A byte of a token that is neither a space, a control character nor beyond ASCII.
abbrev pub is_visible : ℕ → Bool
is_visible b = not (leb b b' ' || leb 127 b)

-- The bytes that begin a white space of one, two and three bytes, `unicode.IsSpace` in UTF-8.
abbrev space_one : ℕ → Bool
space_one a = (leb 9 a && leb a 13) || a == 32

abbrev space_two : ℕ → ℕ → Bool
space_two a b = a == 194 && (b == 133 || b == 160)

abbrev space_three : ℕ → ℕ → ℕ → Bool
space_three a b c =
    (a == 225 && b == 154 && c == 128)
    || (a == 226 && b == 128 && ((leb 128 c && leb c 138) || c == 168 || c == 169 || c == 175))
    || (a == 226 && b == 129 && c == 159)
    || (a == 227 && b == 128 && c == 128)

-- `strings.TrimSpace(s) == ""`
unfoldable pub is_blank : Bytes → Bool
is_blank [] = true
is_blank (a ∷ []) = space_one a
is_blank (a ∷ b ∷ []) = (space_one a && space_one b) || space_two a b
is_blank (a ∷ b ∷ c ∷ s) =
    (space_one a && is_blank (b ∷ c ∷ s))
    || (space_two a b && is_blank (c ∷ s))
    || (space_three a b c && is_blank s)

abbrev pub within : ℤ → ℤ → ℤ → Bool
within low high n = not (ltb_ℤ n low || ltb_ℤ high n)

-- A parsed value, if it is within the test.
abbrev pub checked : Option ℤ → (ℤ → Bool) → String → Result ℤ
checked none good text = err (message text)
checked (some n) good text = if good n then ok n else err (message text)

-- `if value := getenv(…); value != "" { … }` before a default
unfoldable pub setting : Bytes → (Bytes → Option ℤ) → (ℤ → Bool) → String → ℤ → Result ℤ
setting value parse good text default =
    if same value [] then ok default else checked (parse value) good text

unfoldable pub load_config : Environment → Result Settings
load_config env = do
  let url = env.variable (codes "DATABASE_URL")
  let token = env.variable (codes "BILLING_API_TOKEN")
  let addr = env.variable (codes "HTTP_ADDR")
  let address = if same addr [] then codes "127.0.0.1:8080" else addr
  refuse_if (is_blank url) "database_url is required"
  refuse_if (ltb (length token) 32 || ltb 4096 (length token))
      "billing_api_token must contain 32 to 4096 bytes"
  refuse_if (not (all is_visible token))
      "billing_api_token must contain printable ascii without whitespace"
  refuse_if (not (env.host_and_port address)) "http_addr must contain a host and port"
  rate ←
      setting (env.variable (codes "BILLING_RATE_MICROS")) parse_int (λ n. not (leb_ℤ n (pos 0)))
        "billing_rate_micros must be a positive int64" (pos 1000)
  interval ←
      setting (env.variable (codes "WORKER_INTERVAL")) env.duration
        (within (pos 10000000) (pos 60000000000)) "worker_interval must be between 10ms and 1m"
        (pos 100000000)
  batch ←
      setting (env.variable (codes "WORKER_BATCH")) parse_int (within (pos 1) (pos 1000))
        "worker_batch must be between 1 and 1000" (pos 100)
  limit ←
      setting (env.variable (codes "BILLING_MAX_PENDING_EVENTS")) parse_int
        (within (pos 1) (pos 1000000)) "billing_max_pending_events must be between 1 and 1000000"
        (pos 10000)
  ok (record {
    database_url = url;
    token = token;
    http_addr = address;
    rate_micros = rate;
    worker_interval = interval;
    worker_batch = batch;
    max_pending_events = limit;
  })
