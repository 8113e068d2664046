-- ===== src/Http/Bounds.antt =====
-- internal/httpapi/httpapi.go: the cells of `requests` that a request may count in.
use usage_billing.Prelude.{
  ℕ, ◌/◌, ◌≤◌, ◌<◌, Bytes, codes, String, same, Bool, true, false, not, ◌&&◌, Option, none, some,
  List, [], ◌∷◌, ◌==◌, if◌then◌else◌, arith, length, ltb,
}
use usage_billing.Prelude.Int.{ℤ}
use usage_billing.Errors.{
  Error, Result, ok, err, is, invalid, conflict, retry_conflict, not_found, queue_full,
}
use usage_billing.RequestId.{Context}
use usage_billing.Billing.{Input, Event}
use usage_billing.Billing.Service.{Service, accept, get, summary, retry}
use usage_billing.Http.Routing.{route, route_parts, split_slash}
use usage_billing.Http.Decoding.{decode_input, decode_retry}
use usage_billing.Http.Handler.{
  Handler, Request, Response, Payload, World, authorized, write_json, fail_with, service_error,
  changed, sized, is_json, read_body, with_body, shown, expected_method, accept_input,
  retry_generation, handle_accept, handle_retry, dispatch, serve,
}

-- The status of a response has a class of 1 to 5.
abbrev pub HasClass : Response → Type 0
HasClass r = (100 ≤ r.status) × (r.status < 600)

module _ (P : Response → Type 0) where
  either : (b : Bool) (x y : Response) → P x → P y → P (if b then x else y)
  either true x y p q = p
  either false x y p q = q

  either_pair :
      {S : Type 0} (b : Bool) (x y : Response × S) → P x.0 → P y.0 → P (if b then x else y).0
  either_pair true x y p q = p
  either_pair false x y p q = q

module _ (w : World) (h : Handler) where
  write_json-HasClass :
      (status : ℕ) (payload : Payload) (headers : List (String × String))
      → 100 ≤ status
      → status < 600
      → HasClass (write_json w h status payload headers)
  unfolding write_json
  write_json-HasClass status payload headers p q =
      either HasClass (w.encodes payload) _ _ (p, q) (omega arith, omega arith)

  fail_with-HasClass :
      (status : ℕ) (code : String) (headers : List (String × String))
      → 100 ≤ status
      → status < 600
      → HasClass (fail_with w h status code headers)
  unfolding fail_with
  fail_with-HasClass status code headers p q = write_json-HasClass status _ headers p q

  service_error-HasClass : (e : Error) → HasClass (service_error w h e)
  unfolding service_error
  service_error-HasClass e =
      either HasClass (is e invalid) _ _ (fail_with-HasClass 400 _ _ (omega arith) (omega arith)) (
        either HasClass (is e conflict) _ _ (fail_with-HasClass 409 _ _ (omega arith) (omega arith))
          (either HasClass (is e retry_conflict) _ _
            (fail_with-HasClass 409 _ _ (omega arith) (omega arith))
            (either HasClass (is e not_found) _ _
              (fail_with-HasClass 404 _ _ (omega arith) (omega arith))
              (either HasClass (is e queue_full) _ _
                (fail_with-HasClass 503 _ _ (omega arith) (omega arith))
                (fail_with-HasClass 500 _ _ (omega arith) (omega arith))))))

  changed-HasClass : (r : Result (Event × Bool)) → HasClass (changed w h r)
  unfolding changed
  changed-HasClass (ok (event, true)) = write_json-HasClass 202 _ _ (omega arith) (omega arith)
  changed-HasClass (ok (event, false)) = write_json-HasClass 200 _ _ (omega arith) (omega arith)
  changed-HasClass (err e) = service_error-HasClass e

  abbrev Refuses : Bytes × Option Response → Type 0
  Refuses (body, none) = Unit
  Refuses (body, some r) = HasClass r

  sized-Refuses : (body : Option Bytes) → Refuses (sized w h body)
  sized-Refuses none = fail_with-HasClass 400 _ _ (omega arith) (omega arith)
  sized-Refuses (some s) = by_size (ltb 16384 (length s))
    where
      by_size :
          (b : Bool)
          → Refuses (if b then ([], some (fail_with w h 413 "body_too_large" [])) else (s, none))
      by_size true = fail_with-HasClass 413 _ _ (omega arith) (omega arith)
      by_size false = tt

  read_body-Refuses : (r : Request) → Refuses (read_body w h r)
  unfolding read_body
  read_body-Refuses r = by_type (is_json w h r.media_type)
    where
      by_type :
          (b : Bool)
          → Refuses
              (if b then sized w h r.body else ([], some (fail_with w h 415 "json_required" [])))
      by_type true = sized-Refuses r.body
      by_type false = fail_with-HasClass 415 _ _ (omega arith) (omega arith)

  module _ {S : Type 0} (svc : Service S) (ctx : Context) where
    with_body-HasClass :
        (b : Bytes × Option Response) (f : Bytes → Response × S) (s : S)
        → Refuses b
        → ((body : Bytes) → HasClass (f body).0)
        → HasClass (with_body w h svc ctx b f s).0
    with_body-HasClass (body, some refused) f s c k = c
    with_body-HasClass (body, none) f s c k = k body

    accept_input-HasClass : (d : Result Input) (s : S) → HasClass (accept_input w h svc ctx d s).0
    unfolding accept_input
    accept_input-HasClass (err e) s = fail_with-HasClass 400 _ _ (omega arith) (omega arith)
    accept_input-HasClass (ok input) s = changed-HasClass (accept svc ctx w.entropy input s).0

    retry_generation-HasClass :
        (id : Bytes) (d : Result ℤ) (s : S) → HasClass (retry_generation w h svc ctx id d s).0
    unfolding retry_generation
    retry_generation-HasClass id (err e) s = fail_with-HasClass 400 _ _ (omega arith) (omega arith)
    retry_generation-HasClass id (ok n) s = changed-HasClass (retry svc id n s).0

    shown-HasClass :
        {A : Type 0} (body : A → Payload) (r : Result A) → HasClass (shown w h svc ctx body r)
    shown-HasClass body (ok a) = write_json-HasClass 200 _ _ (omega arith) (omega arith)
    shown-HasClass body (err e) = service_error-HasClass e

    dispatch-HasClass :
        (r : Request) (index : ℕ) (id : Bytes) (s : S)
        → HasClass (dispatch w h svc ctx r index id s).0
    unfolding dispatch handle_accept handle_retry
    dispatch-HasClass r index id s =
        either_pair HasClass (index == 1) _ _
          (write_json-HasClass 200 _ _ (omega arith) (omega arith))
          (either_pair HasClass (index == 2) _ _
            (either HasClass w.is_ready _ _
              (write_json-HasClass 200 _ _ (omega arith) (omega arith))
              (fail_with-HasClass 503 _ _ (omega arith) (omega arith)))
            (either_pair HasClass (index == 3) _ _
              (with_body-HasClass (read_body w h r) _ s (read_body-Refuses r)
                (λ body. accept_input-HasClass (decode_input w.reader body) s))
              (either_pair HasClass (index == 4) _ _ (shown-HasClass _ (get svc id s)) (
                either_pair HasClass (index == 5) _ _ (shown-HasClass _ (summary svc id s)) (
                  either_pair HasClass (index == 7) _ _
                    (with_body-HasClass (read_body w h r) _ s (read_body-Refuses r)
                      (λ body. retry_generation-HasClass id (decode_retry w.reader body) s))
                    (omega arith, omega arith))))))

    serve-HasClass :
        (r : Request) (index : ℕ) (id : Bytes) (s : S) → HasClass (serve w h svc ctx r index id s).0
    unfolding serve
    serve-HasClass r index id s =
        either_pair HasClass
          (not (index == 1) && not (index == 2) && not (authorized w h r.authorization)) _ _
          (fail_with-HasClass 401 _ _ (omega arith) (omega arith))
          (either_pair HasClass (index == 0) _ _
            (fail_with-HasClass 404 _ _ (omega arith) (omega arith))
            (either_pair HasClass (not (same r.method (expected_method w h svc ctx index))) _ _
              (fail_with-HasClass 405 _ _ (omega arith) (omega arith))
              (dispatch-HasClass r index id s)))

either_route : (b : Bool) (x y : ℕ × Bytes) → x.0 < 8 → y.0 < 8 → (if b then x else y).0 < 8
either_route true x y p q = p
either_route false x y p q = q

route_parts-bounded : (parts : List Bytes) → (route_parts parts).0 < 8
unfolding route_parts
route_parts-bounded [] = omega arith
route_parts-bounded (a ∷ []) = omega arith
route_parts-bounded (a ∷ b ∷ []) = omega arith
route_parts-bounded (a ∷ b ∷ c ∷ []) = omega arith
route_parts-bounded (a ∷ b ∷ c ∷ d ∷ []) = either_route _ (4, d) (0, []) (omega arith) (omega arith)
route_parts-bounded (a ∷ b ∷ c ∷ d ∷ e ∷ []) =
    either_route _ (7, d) _ (omega arith)
      (either_route _ (5, d) (0, []) (omega arith) (omega arith))
route_parts-bounded (a ∷ b ∷ c ∷ d ∷ e ∷ f ∷ rest) = omega arith

route-bounded : (path : Bytes) → (route path).0 < 8
unfolding route
route-bounded path = either_route (same path (codes "/healthz")) _ _ (omega arith) (
    either_route (same path (codes "/readyz")) _ _ (omega arith) (
      either_route (same path (codes "/v1/events")) _ _ (omega arith) (
        either_route (same path (codes "/metrics")) _ _ (omega arith)
          (route_parts-bounded (split_slash path)))))

-- For every request, the route and the class of the response's status are indices of the counters,
-- eight routes by six classes, so counting it never panics.
pub serve-in_range :
    {S : Type 0} (w : World) (h : Handler) (svc : Service S) (ctx : Context) (r : Request) (s : S)
    → ((route r.path).0 < 8)
      × ((serve w h svc ctx r (route r.path).0 (route r.path).1 s).0.status / 100 < 6)
serve-in_range w h svc ctx r s =
    let (low, high) = serve-HasClass w h svc ctx r (route r.path).0 (route r.path).1 s in
    (route-bounded r.path, omega arith)
