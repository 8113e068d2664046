-- ===== src/Http/Guards.antt =====
-- internal/httpapi/httpapi.go: what a request can do to the service behind the handler.
use usage_billing.Prelude.{
  ℕ, Bytes, codes, same, same_iff, Bool, true, false, not, ◌&&◌, Option, none, some, ◌==◌,
  if◌then◌else◌, ◌≡◌, ◌⊎◌, inl, inr, refl, arith, [], length, ◌≤◌, ap, Bool-cases,
}
use usage_billing.Prelude.Int.{ℤ}
use usage_billing.Errors.{Result, ok, err}
use usage_billing.RequestId.{Context, new, with_context}
use usage_billing.Billing.{Input}
use usage_billing.Billing.Service.{Service, accept, retry}
use usage_billing.Http.Routing.{route}
use usage_billing.Http.Decoding.{decode_input, decode_retry}
use usage_billing.Http.Handler.{
  Handler, Request, Response, World, authorized, sized, is_json, read_body, with_body,
  expected_method, accept_input, retry_generation, handle_accept, handle_retry, dispatch, serve,
  serve_http, background,
}

-- The body of a request that the service reads: JSON of at most 16384 bytes.
pub record Carries (r : Request) (body : Bytes) : Type 0 where
  pub media_type : r.media_type ≡ some (codes "application/json")
  pub given : r.body ≡ some body
  pub size : length body ≤ 16384

module _ (w : World) (h : Handler) where
  sized_inv :
      (given : Option Bytes) (body : Bytes)
      → sized w h given ≡ (body, none)
      → (given ≡ some body) × (length body ≤ 16384)
  sized_inv none body e = cc
  sized_inv (some s) body e = ground arith

  read_inv :
      (media_type given : Option Bytes) (refused : Response) (body : Bytes)
      → (if is_json w h media_type then sized w h given else ([], some refused)) ≡ (body, none)
      → (media_type ≡ some (codes "application/json")) × (given ≡ some body) × (length body ≤ 16384)
  read_inv none given refused body e = cc
  read_inv (some t) given refused body e = elim (Bool-cases (same t (codes "application/json"))) [
    | inl json ↦
        let (found, size) = sized_inv given body (rw json at e) in
        (ap some ((same_iff t (codes "application/json")).0 json), found, size)
    | inr other ↦
        let no_body : ◌≡◌ {A = Bytes × Option Response} ([], some refused) (body, none) =
          rw other at e in
        cc
  ]

  read_body-Carries : (r : Request) (body : Bytes) → read_body w h r ≡ (body, none) → Carries r body
  unfolding read_body
  read_body-Carries r body e =
      let (media_type, given, size) = read_inv r.media_type r.body _ body e in
      record { media_type = media_type; given = given; size = size }

module _ (w : World) (h : Handler) {S : Type 0} (svc : Service S) (ctx : Context) where
  -- One call of `Accept` on what the body of the request decodes to, or one of `Retry`.
  abbrev pub Accepted : Request → S → S → Type 0
  Accepted r s s' =
      (body : Bytes) × (input : Input) × Carries r body
      × (decode_input w.reader body ≡ ok input)
      × (s' ≡ (accept svc ctx w.entropy input s).1)

  abbrev pub Retried : Request → Bytes → S → S → Type 0
  Retried r id s s' =
      (body : Bytes) × (generation : ℤ) × Carries r body
      × (decode_retry w.reader body ≡ ok generation)
      × (s' ≡ (retry svc id generation s).1)

  abbrev pub Changes : Request → ℕ → Bytes → S → S → Type 0
  Changes r index id s s' =
      (authorized w h r.authorization ≡ true)
      × (r.method ≡ codes "POST")
      × (((index ≡ 3) × Accepted r s s') ⊎ ((index ≡ 7) × Retried r id s s'))

  accept_input-Accepted :
      (r : Request) (body : Bytes) (d : Result Input) (s : S)
      → Carries r body
      → decode_input w.reader body ≡ d
      → ((accept_input w h svc ctx d s).1 ≡ s) ⊎ Accepted r s (accept_input w h svc ctx d s).1
  unfolding accept_input
  accept_input-Accepted r body (err e) s c p = inl refl
  accept_input-Accepted r body (ok input) s c p = inr (body, input, c, p, refl)

  retry_generation-Retried :
      (r : Request) (id body : Bytes) (d : Result ℤ) (s : S)
      → Carries r body
      → decode_retry w.reader body ≡ d
      → ((retry_generation w h svc ctx id d s).1 ≡ s)
        ⊎ Retried r id s (retry_generation w h svc ctx id d s).1
  unfolding retry_generation
  retry_generation-Retried r id body (err e) s c p = inl refl
  retry_generation-Retried r id body (ok g) s c p = inr (body, g, c, p, refl)

  with_body-either :
      (P : S → Type 0) (b : Bytes × Option Response) (f : Bytes → Response × S) (s : S)
      → ((body : Bytes) → b ≡ (body, none) → ((f body).1 ≡ s) ⊎ P (f body).1)
      → ((with_body w h svc ctx b f s).1 ≡ s) ⊎ P (with_body w h svc ctx b f s).1
  with_body-either P (body, some refused) f s k = inl refl
  with_body-either P (body, none) f s k = k body refl

  -- A test between two outcomes.
  either :
      (R : S → Type 0) (b : Bool) (x y : Response × S)
      → (b ≡ true → R x.1)
      → (b ≡ false → R y.1)
      → R (if b then x else y).1
  either R true x y f g = f refl
  either R false x y f g = g refl

  -- The change that a route makes, given that it is authorized.
  abbrev Routed : Request → ℕ → Bytes → S → S → Type 0
  Routed r index id s s' =
      (s' ≡ s) ⊎ (((index ≡ 3) × Accepted r s s') ⊎ ((index ≡ 7) × Retried r id s s'))

  handle_accept-Accepted :
      (r : Request) (s : S)
      → ((handle_accept w h svc ctx r s).1 ≡ s) ⊎ Accepted r s (handle_accept w h svc ctx r s).1
  unfolding handle_accept
  handle_accept-Accepted r s = with_body-either (Accepted r s) (read_body w h r) _ s (λ body read.
      accept_input-Accepted r body (decode_input w.reader body) s
        (read_body-Carries w h r body read) refl)

  handle_retry-Retried :
      (r : Request) (id : Bytes) (s : S)
      → ((handle_retry w h svc ctx r id s).1 ≡ s)
        ⊎ Retried r id s (handle_retry w h svc ctx r id s).1
  unfolding handle_retry
  handle_retry-Retried r id s =
      with_body-either (Retried r id s) (read_body w h r) _ s (λ body read.
        retry_generation-Retried r id body (decode_retry w.reader body) s
          (read_body-Carries w h r body read) refl)

  dispatch-Routed :
      (r : Request) (index : ℕ) (id : Bytes) (s : S)
      → Routed r index id s (dispatch w h svc ctx r index id s).1
  unfolding dispatch
  dispatch-Routed r index id s =
      either (Routed r index id s) (index == 1) _ _ (λ p. inl refl)
        (λ _.
          either (Routed r index id s) (index == 2) _ _ (λ p. inl refl)
            (λ _.
              either (Routed r index id s) (index == 3) _ _
                (λ p. elim (handle_accept-Accepted r s) [
                  | inl same ↦ inl same
                  | inr done ↦ inr (inl (ground arith, done))
                ])
                (λ _.
                  either (Routed r index id s) (index == 4) _ _ (λ p. inl refl)
                    (λ _.
                      either (Routed r index id s) (index == 5) _ _ (λ p. inl refl)
                        (λ _.
                          either (Routed r index id s) (index == 7) _ _
                            (λ p. elim (handle_retry-Retried r id s) [
                              | inl same ↦ inl same
                              | inr done ↦ inr (inr (ground arith, done))
                            ])
                            (λ _. inl refl))))))

  is_allowed : (b : Bool) → not b ≡ false → b ≡ true
  is_allowed b m = ground arith

  is_authorized :
      (index : ℕ) (b : Bool)
      → (index ≡ 3) ⊎ (index ≡ 7)
      → (not (index == 1) && not (index == 2) && not b) ≡ false
      → b ≡ true
  is_authorized index b p a = ground arith

  posted :
      (index : ℕ) (method : Bytes)
      → (index ≡ 3) ⊎ (index ≡ 7)
      → not (same method (expected_method w h svc ctx index)) ≡ false
      → method ≡ codes "POST"
  unfolding expected_method
  posted index method (inl p) m = (same_iff method (codes "POST")).0 (is_allowed _ (rw p at m))
  posted index method (inr p) m = (same_iff method (codes "POST")).0 (is_allowed _ (rw p at m))

  guarded :
      (r : Request) (index : ℕ) (id : Bytes) (s s' : S)
      → (not (index == 1) && not (index == 2) && not (authorized w h r.authorization)) ≡ false
      → not (same r.method (expected_method w h svc ctx index)) ≡ false
      → Routed r index id s s'
      → (s' ≡ s) ⊎ Changes r index id s s'
  guarded r index id s s' a m (inl same_state) = inl same_state
  guarded r index id s s' a m (inr (inl (p, done))) =
      inr (is_authorized index _ (inl p) a, posted index r.method (inl p) m, inl (p, done))
  guarded r index id s s' a m (inr (inr (p, done))) =
      inr (is_authorized index _ (inr p) a, posted index r.method (inr p) m, inr (p, done))

  serve-Changes :
      (r : Request) (index : ℕ) (id : Bytes) (s : S)
      → ((serve w h svc ctx r index id s).1 ≡ s)
        ⊎ Changes r index id s (serve w h svc ctx r index id s).1
  unfolding serve
  serve-Changes r index id s =
      either (λ t. (t ≡ s) ⊎ Changes r index id s t)
        (not (index == 1) && not (index == 2) && not (authorized w h r.authorization)) _ _
        (λ _. inl refl)
        (λ a.
          either (λ t. (t ≡ s) ⊎ Changes r index id s t) (index == 0) _ _ (λ _. inl refl)
            (λ _.
              either (λ t. (t ≡ s) ⊎ Changes r index id s t)
                (not (same r.method (expected_method w h svc ctx index))) _ _ (λ _. inl refl)
                (λ m. guarded r index id s _ a m (dispatch-Routed r index id s))))

-- A request changes what is behind the handler only if it bears the token, is a POST, and its path is
-- that of the events or of a retry; and then by one call of `Accept` on the input that its body, JSON
-- of at most 16384 bytes, decodes to, under an identifier made for the request, or by one call of
-- `Retry` on the identifier of the path and the generation that its body, of the same kind, decodes to.
pub serve_http-Changes :
    {S : Type 0} (w : World) (h : Handler) (svc : Service S) (seed : Bytes) (r : Request) (s : S)
    → let s' = (serve_http w h svc seed r s).2 in
      (s' ≡ s)
      ⊎ Changes w h svc
          (with_context background (new seed))
          r
          (route r.path).0
          (route r.path).1
          s
          s'
unfolding serve_http
serve_http-Changes w h svc seed r s =
    serve-Changes w h svc (with_context background (new seed)) r (route r.path).0 (route r.path).1 s
