-- ===== src/Http/Handler.antt =====
-- internal/httpapi/httpapi.go: `New`, `serve`, its branches, and `ServeHTTP` with its counters.
use usage_billing.Prelude.{
  ℕ, ◌+◌, ◌/◌, String, Bytes, codes, same, Bool, true, false, not, ◌&&◌, ◌||◌, Option, none, some,
  List, [], ◌∷◌, length, all, ltb, leb, ◌==◌, if◌then◌else◌,
}
use usage_billing.Prelude.Int.{ℤ}
use usage_billing.Errors.{
  Error, message, invalid, conflict, not_found, queue_full, retry_conflict, is, Result, ok, err,
}
use usage_billing.RequestId.{Context, new, with_context}
use usage_billing.Billing.{Input, Event, Summary}
use usage_billing.Billing.Service.{Service, accept, get, summary, retry}
use usage_billing.Http.Routing.{route}
use usage_billing.Http.Metrics.{Counters, count_request, metrics_text}
use usage_billing.Http.Decoding.{Reader, decode_input, decode_retry}

-- `handler` without its callbacks.
pub record Handler : Type 0 where
  pub token_hash : Bytes
  pub requests : Counters

-- A byte at most a space, or beyond visible ASCII.
abbrev pub is_refused : ℕ → Bool
is_refused b = leb b b' ' || leb 127 b

abbrev pub any_byte : (ℕ → Bool) → Bytes → Bool
any_byte p [] = false
any_byte p (b ∷ s) = p b || any_byte p s

-- `New`. Whether the service, the readiness callback and the logger are set; for each metrics source
-- whether it is.
unfoldable pub new_handler : (Bytes → Bytes) → Bool → Bytes → List Bool → Result Handler
new_handler hash parts_set token sources =
    if not parts_set
    then err (message "service, readiness callback, and logger are required")
    else if ltb (length token) 32 || ltb 4096 (length token)
    then err (message "API token must contain between 32 and 4096 bytes")
    else if any_byte is_refused token
    then err (message "API token must contain printable ASCII without whitespace")
    else if ltb 1 (length sources) || not (all (λ b. b) sources)
    then err (message "at most one non-nil metrics source is allowed")
    else ok (record { token_hash = hash token; requests = λ index class. 0 })

-- A request, as far as the handler looks: `media_type` is what `mime.ParseMediaType` makes of the
-- content type, and `body` is `none` where reading it fails for another reason than its size.
pub record Request : Type 0 where
  pub method : Bytes
  pub path : Bytes
  pub authorization : List Bytes
  pub media_type : Option Bytes
  pub body : Option Bytes

pub data Payload : Type 0 where
  failure report : String → Payload
  event_body : Event → Payload
  totals_body : Summary → Payload
  metrics_body : Bytes → Payload

pub record Response : Type 0 where
  pub status : ℕ
  pub payload : Payload
  pub headers : List (String × String)

-- What the handler calls: sha256, encoding/json in both directions, the readiness callback's answer,
-- random bytes, and the text of the metrics source, which is empty without one.
pub record World : Type 0 where
  pub hash : Bytes → Bytes
  pub reader : Reader
  pub encodes : Payload → Bool
  pub is_ready : Bool
  pub entropy : Bytes
  pub operational : Bytes

-- `strings.Cut(s, " ")`
unfoldable pub cut_space : Bytes → Option (Bytes × Bytes)
cut_space [] = none
cut_space (c ∷ s) =
    let rest = cut_space s in
    if c == b' '
    then some ([], s)
    else elim rest [ none ↦ none | some (head, tail) ↦ some (c ∷ head, tail) ]

abbrev lower : ℕ → ℕ
lower c = if leb b'A' c && leb c b'Z' then c + 32 else c

-- `strings.EqualFold(s, "Bearer")`, whose letters have no case pairs beyond ASCII.
unfoldable pub folds_to : Bytes → Bytes → Bool
folds_to [] [] = true
folds_to (a ∷ s) (b ∷ t) = lower a == lower b && folds_to s t
folds_to _ _ = false

module _ (w : World) (h : Handler) where
  abbrev pub bears_token : Option (Bytes × Bytes) → Bool
  bears_token none = false
  bears_token (some (scheme, token)) =
      folds_to scheme (codes "Bearer") && same (w.hash token) h.token_hash

  unfoldable pub authorized : List Bytes → Bool
  unfolding cut_space folds_to
  authorized (value ∷ []) = bears_token (cut_space value)
  authorized _ = false

  unfoldable pub write_json : ℕ → Payload → List (String × String) → Response
  write_json status payload headers =
      if w.encodes payload
      then record { status = status; payload = payload; headers = headers }
      else record { status = 500; payload = failure "internal_error"; headers = headers }

  unfoldable pub fail_with : ℕ → String → List (String × String) → Response
  unfolding write_json
  fail_with status code headers = write_json status (failure code) headers

  unfoldable pub service_error : Error → Response
  unfolding fail_with
  service_error e =
      if is e invalid
      then fail_with 400 "invalid_input" []
      else if is e conflict
      then fail_with 409 "event_conflict" []
      else if is e retry_conflict
      then fail_with 409 "retry_conflict" []
      else if is e not_found
      then fail_with 404 "not_found" []
      else if is e queue_full
      then fail_with 503 "queue_full" (("Retry-After", "1") ∷ [])
      else fail_with 500 "internal_error" []

  -- The answer to `Accept` and to `Retry`: 202 for a change, 200 for a replay.
  unfoldable pub changed : Result (Event × Bool) → Response
  unfolding service_error
  changed (ok (event, true)) = write_json 202 (event_body event) []
  changed (ok (event, false)) = write_json 200 (event_body event) []
  changed (err e) = service_error e

  abbrev pub sized : Option Bytes → Bytes × Option Response
  sized none = ([], some (fail_with 400 "invalid_json" []))
  sized (some s) =
      if ltb 16384 (length s) then ([], some (fail_with 413 "body_too_large" [])) else (s, none)

  abbrev pub is_json : Option Bytes → Bool
  is_json none = false
  is_json (some t) = same t (codes "application/json")

  -- `readBody`: the bytes, or the response that refuses them.
  unfoldable pub read_body : Request → Bytes × Option Response
  read_body r =
      if is_json r.media_type then sized r.body else ([], some (fail_with 415 "json_required" []))

  module _ {S : Type 0} (svc : Service S) (ctx : Context) where
    abbrev pub answered : Result (Event × Bool) × S → Response × S
    answered (r, s) = (changed r, s)

    -- `accept` and `retry` after decoding
    unfoldable pub accept_input : Result Input → S → Response × S
    accept_input (err e) s = (fail_with 400 "invalid_json" [], s)
    accept_input (ok input) s = answered (accept svc ctx w.entropy input s)

    unfoldable pub retry_generation : Bytes → Result ℤ → S → Response × S
    retry_generation id (err e) s = (fail_with 400 "invalid_json" [], s)
    retry_generation id (ok generation) s = answered (retry svc id generation s)

    abbrev pub with_body : Bytes × Option Response → (Bytes → Response × S) → S → Response × S
    with_body (body, some refused) f s = (refused, s)
    with_body (body, none) f s = f body

    unfoldable pub handle_accept : Request → S → Response × S
    unfolding accept_input
    handle_accept r s =
        with_body (read_body r) (λ body. accept_input (decode_input w.reader body) s) s

    unfoldable pub handle_retry : Request → Bytes → S → Response × S
    unfolding retry_generation
    handle_retry r id s =
        with_body (read_body r) (λ body. retry_generation id (decode_retry w.reader body) s) s

    abbrev pub shown : {A : Type 0} → (A → Payload) → Result A → Response
    shown body (ok a) = write_json 200 (body a) []
    shown body (err e) = service_error e

    unfoldable pub expected_method : ℕ → Bytes
    expected_method index = if index == 3 || index == 7 then codes "POST" else codes "GET"

    -- the `switch` on the route
    unfoldable pub dispatch : Request → ℕ → Bytes → S → Response × S
    unfolding handle_accept handle_retry
    dispatch r index id s =
        if index == 1
        then (write_json 200 (report "ok") [], s)
        else if index == 2
        then (
          if w.is_ready then write_json 200 (report "ready") [] else fail_with 503 "not_ready" [],
          s,
        )
        else if index == 3
        then handle_accept r s
        else if index == 4
        then (shown event_body (get svc id s), s)
        else if index == 5
        then (shown totals_body (summary svc id s), s)
        else if index == 7
        then handle_retry r id s
        else (
          record {
            status = 200;
            payload = metrics_body (metrics_text h.requests w.operational);
            headers = [];
          },
          s,
        )

    unfoldable pub serve : Request → ℕ → Bytes → S → Response × S
    unfolding dispatch expected_method
    serve r index id s =
        if not (index == 1) && not (index == 2) && not (authorized r.authorization)
        then (fail_with 401 "unauthorized" (("WWW-Authenticate", "Bearer") ∷ []), s)
        else if index == 0
        then (fail_with 404 "not_found" [], s)
        else if not (same r.method (expected_method index))
        then (
          fail_with 405 "method_not_allowed"
              (("Allow", if index == 3 || index == 7 then "POST" else "GET") ∷ []),
          s,
        )
        else dispatch r index id s

abbrev pub background : Context
background = record { value = none }

-- `ServeHTTP`, without what it logs: the response, the handler with its counters, and what is behind
-- the handler. `seed` are the random bytes of the request's identifier.
unfoldable pub serve_http :
    {S : Type 0} → World → Handler → Service S → Bytes → Request → S → Response × Handler × S
serve_http w h svc seed r s =
    let (index, id) = route r.path in
    let (response, s') = serve w h svc (with_context background (new seed)) r index id s in
    (response, record h { requests = count_request index (response.status / 100) h.requests }, s')
