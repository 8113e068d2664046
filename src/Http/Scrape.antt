-- ===== src/Http/Scrape.antt =====
-- internal/httpapi/httpapi.go: what a scraper reads in the text of `metrics`.
use usage_billing.Prelude.{
  ℕ, String, Bytes, codes, true, Option, some, List, [], ◌∷◌, ◌++◌, All, all, ◌≡◌, refl, ◌∙◌,
}
use usage_billing.Strconv.{format_uint}
use usage_billing.Exposition.{text_of, lines_of, sample, sample_in, after_prefix}
use usage_billing.Exposition.Lines.{is_line, is_line-format_uint, sample-append_text}
use usage_billing.Http.Metrics.{Counters, request_lines, completed, metrics_text}

-- The routes under their names, and the classes of a status.
abbrev pub routes : List (ℕ × String)
routes =
    (0, "unmatched")
    ∷ (1, "health")
    ∷ (2, "ready")
    ∷ (3, "accept")
    ∷ (4, "event")
    ∷ (5, "summary")
    ∷ (6, "metrics")
    ∷ (7, "retry")
    ∷ []

abbrev pub classes : List (ℕ × String)
classes = (1, "1xx") ∷ (2, "2xx") ∷ (3, "3xx") ∷ (4, "4xx") ∷ (5, "5xx") ∷ []

request_lines-is_line : (counters : Counters) → all is_line (request_lines counters) ≡ true
request_lines-is_line counters = simp is_line-format_uint

-- The text shows the counter of a route and of a class of status under their names.
abbrev pub ShowsCounter : Counters → Bytes → ℕ × String → ℕ × String → Type 0
ShowsCounter counters text (index, name) (class, class_name) =
    sample
      (codes "usage_billing_http_requests_total{route=\""
        ++ codes name
        ++ codes "\",status_class=\""
        ++ codes class_name
        ++ codes "\"}")
      text
    ≡ some (format_uint (counters index class))

-- For each of the eight routes and each class of a status from 1 to 5, a reader of the text of the
-- metrics who asks for `usage_billing_http_requests_total` with the name of the route as `route` and
-- "1xx" to "5xx" as `status_class` finds the counter of that cell in decimal, whatever operational
-- metrics follow.
pub metrics_text-ShowsCounter :
    (counters : Counters) (operational : Bytes)
    → All (λ r. All (ShowsCounter counters (metrics_text counters operational) r) classes) routes
unfolding metrics_text sample_in after_prefix
metrics_text-ShowsCounter counters operational = (
  route (shown (0, "unmatched")) (read _ refl) (read _ refl) (read _ refl) (read _ refl)
      (read _ refl),
  (
    route (shown (1, "health")) (read _ refl) (read _ refl) (read _ refl) (read _ refl)
        (read _ refl),
    (
      route (shown (2, "ready")) (read _ refl) (read _ refl) (read _ refl) (read _ refl)
          (read _ refl),
      (
        route (shown (3, "accept")) (read _ refl) (read _ refl) (read _ refl) (read _ refl)
            (read _ refl),
        (
          route (shown (4, "event")) (read _ refl) (read _ refl) (read _ refl) (read _ refl)
              (read _ refl),
          (
            route (shown (5, "summary")) (read _ refl) (read _ refl) (read _ refl) (read _ refl)
                (read _ refl),
            (
              route (shown (6, "metrics")) (read _ refl) (read _ refl) (read _ refl) (read _ refl)
                  (read _ refl),
              (
                route (shown (7, "retry")) (read _ refl) (read _ refl) (read _ refl) (read _ refl)
                    (read _ refl),
                tt,
              ),
            ),
          ),
        ),
      ),
    ),
  ),
)
  where
    shown : ℕ × String → ℕ × String → Type 0
    shown = ShowsCounter counters (metrics_text counters operational)

    route :
        (P : ℕ × String → Type 0)
        → P (1, "1xx")
        → P (2, "2xx")
        → P (3, "3xx")
        → P (4, "4xx")
        → P (5, "5xx")
        → All P classes
    route P a b c d e = (a, (b, (c, (d, (e, tt)))))

    read :
        (name : Bytes) {o : Option Bytes}
        → sample_in name (request_lines counters ++ lines_of (completed operational)) ≡ o
        → sample name (text_of (request_lines counters) ++ completed operational) ≡ o
    read name e =
        sample-append_text name (request_lines counters) (completed operational)
          (request_lines-is_line counters)
        ∙ e
