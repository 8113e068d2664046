-- ===== src/Http/Metrics.antt =====
-- internal/httpapi/httpapi.go: the counters of requests and the text of `metrics`.
use usage_billing.Prelude.{
  ℕ, ◌+◌, ◌%◌, String, Bytes, codes, Bool, false, ◌&&◌, List, [], ◌∷◌, ◌++◌, ◌==◌, if◌then◌else◌,
}
use usage_billing.Prelude.Int.{u64_mod}
use usage_billing.Strconv.{format_uint}
use usage_billing.Exposition.{text_of}

-- `requests [8][6]atomic.Uint64`
abbrev pub Counters : Type 0
Counters = ℕ → ℕ → ℕ

-- `h.requests[index][class].Add(1)`
unfoldable pub count_request : ℕ → ℕ → Counters → Counters
count_request index class counters i c =
    if i == index && c == class then (counters i c + 1) % u64_mod else counters i c

abbrev pub route_names : List String
route_names =
    "unmatched" ∷ "health" ∷ "ready" ∷ "accept" ∷ "event" ∷ "summary" ∷ "metrics" ∷ "retry" ∷ []

-- The name and the labels of a sample; `%q` of these texts puts quotes around them.
abbrev pub labels : String → ℕ → Bytes
labels name class =
    codes "usage_billing_http_requests_total{route=\""
    ++ codes name
    ++ codes "\",status_class=\""
    ++ (b'0' + class) ∷ codes "xx\"}"

abbrev pub request_line : String → ℕ → ℕ → Bytes
request_line name class n = labels name class ++ b' ' ∷ format_uint n

-- The inner loop, over the classes 1 to 5, and the outer one, over the names from an index on.
abbrev pub class_lines : Counters → ℕ → String → List Bytes
class_lines counters index name =
    request_line name 1 (counters index 1)
    ∷ request_line name 2 (counters index 2)
    ∷ request_line name 3 (counters index 3)
    ∷ request_line name 4 (counters index 4)
    ∷ request_line name 5 (counters index 5)
    ∷ []

abbrev pub route_lines : Counters → ℕ → List String → List Bytes
route_lines counters index [] = []
route_lines counters index (name ∷ names) =
    class_lines counters index name ++ route_lines counters (index + 1) names

abbrev pub request_lines : Counters → List Bytes
request_lines counters =
    codes "# HELP usage_billing_http_requests_total Completed HTTP requests."
    ∷ codes "# TYPE usage_billing_http_requests_total counter"
    ∷ route_lines counters 0 route_names

-- `strings.HasSuffix(s, "\n")`
unfoldable pub ends_line : Bytes → Bool
ends_line [] = false
ends_line (c ∷ []) = c == b'\n'
ends_line (c ∷ d ∷ s) = ends_line (d ∷ s)

abbrev pub completed : Bytes → Bytes
completed [] = []
completed (c ∷ s) = if ends_line (c ∷ s) then c ∷ s else (c ∷ s) ++ b'\n' ∷ []

-- The body of `metrics`; `operational` is the text of the metrics source, and empty without one.
unfoldable pub metrics_text : Counters → Bytes → Bytes
metrics_text counters operational = text_of (request_lines counters) ++ completed operational
