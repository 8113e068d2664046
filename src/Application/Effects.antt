-- ===== src/Application/Effects.antt =====
-- What a request and a batch do to the tables: nothing, or one call of the store.
use usage_billing.Prelude.{
  ℕ, Bytes, same, Bool-cases, Option-cases, false, List, [], ◌∷◌, length, ◌||◌, ◌≡◌, ◌⊎◌, inl, inr,
  refl, arith,
}
use usage_billing.Prelude.Int.{ℤ, pos, leb_ℤ, ltb_ℤ, ◌==ℤ◌, max_int64}
use usage_billing.RequestId.{new, with_context, from_context}
use usage_billing.RequestId.Laws.{for_log_bounded, for_log-new, new-IsRequestId}
use usage_billing.Billing.{Event, Input, validate_id}
use usage_billing.Billing.Pricing.{IsPriced, IsTraced, IsEntropy, accept-HandsOver}
use usage_billing.Billing.Service
use usage_billing.Billing.Service.{Service, priced, request_id_for}
use usage_billing.Http.Handler.{Handler, World, Request, serve_http, background}
use usage_billing.Http.Guards.{serve_http-Changes}
use usage_billing.Http.{route}
use usage_billing.Postgres.{Db, Server, usage_row, process_batch_with_results}
use usage_billing.Postgres.Store
use usage_billing.Postgres.Store.{Store}
use usage_billing.Postgres.System.{Reach, empty, accepting, retrying, processing}
use usage_billing.Postgres.System
use usage_billing.Application.{service_over, Step, requesting, working, History, here, next}
use usage_billing.Application.Arrivals.{Arrival, Brings, IsBrought, with_arrival, arrivals}

-- What one step may do to the tables: nothing, or one call of the store, where an accepted event is
-- one that the service priced and that one of the requests brought.
pub data Effect (store : Store) (rate : ℤ) (came : List Arrival) (db : Db) : Db → Type 0 where
  nothing : Effect store rate came db db
  admits :
      (srv : Server) (e : Event)
      → IsPriced rate e
      → ((now : ℕ) → IsBrought came (usage_row e now))
      → Effect store rate came db (Store.accept srv store e db).1
  retries :
      (srv : Server) (id : Bytes) (generation : ℤ)
      → Effect store rate came db (Store.retry srv id generation db).1
  settles :
      (srv : Server) (limit : ℤ)
      → Effect store rate came db (process_batch_with_results srv limit db).1

Effect-at :
    {store : Store} {rate : ℤ} {came : List Arrival} {db x y : Db}
    → y ≡ x
    → Effect store rate came db x
    → Effect store rate came db y
Effect-at e h = rw e h

retry-state :
    {S : Type 0} (svc : Service S) (id : Bytes) (generation : ℤ) (s : S)
    → ((Service.retry svc id generation s).1 ≡ s)
      ⊎ ((Service.retry svc id generation s).1 ≡ (svc.repo.retry id generation s).1)
unfolding Service.retry
retry-state svc id generation s = elim (Option-cases (validate_id id)) [
  | inr (e, bad) ↦ rw bad (inl refl)
  | inl good ↦ elim (Bool-cases (ltb_ℤ generation (pos 0) || generation ==ℤ pos max_int64)) [
    | inl out ↦ rw (good, out) (inl refl)
    | inr fits ↦ rw (good, fits) (inr refl)
  ]
]

pub traced : (seed : Bytes) → IsTraced (with_context background (new seed))
unfolding with_context from_context
traced seed = for_log_bounded (new seed)

has_text : (s : Bytes) → length s ≡ 32 → same s [] ≡ false
unfolding same
has_text [] h = ground arith
has_text (c ∷ s) h = refl

-- The event of a request is stored under the identifier that was made for the request.
request_id_for-new :
    (seed raw : Bytes)
    → IsEntropy seed
    → request_id_for (with_context background (new seed)) raw ≡ new seed
unfolding request_id_for with_context from_context
request_id_for-new seed raw h =
    rw (for_log-new seed h.0 h.1, has_text (new seed) (new-IsRequestId seed h.0 h.1).0) refl

module _ (store : Store) (rate : ℤ) (positive : leb_ℤ rate (pos 0) ≡ false) where
  module _ (srv : Server) (w : World) (seed : Bytes) (r : Request) (h : Handler) (db : Db)
      (seeded : IsEntropy seed) (random : IsEntropy w.entropy) (came : List Arrival) where
    abbrev svc : Service Db
    svc = service_over srv store rate

    abbrev arrival : Arrival
    arrival = record { world = w; handler = h; seed = seed; request = r }

    accepts :
        (input : Input)
        → ((request_id : Bytes)
            → request_id ≡ new seed
            → (now : ℕ) → Brings arrival (usage_row (priced rate request_id input) now))
        → Effect store rate
            (arrival ∷ came)
            db
            (Service.accept svc (with_context background (new seed)) w.entropy input db).1
    accepts input brings =
        let ctx = with_context background (new seed) in
        let id = request_id_for ctx w.entropy in
        elim (accept-HandsOver svc ctx w.entropy input db positive (traced seed) random) [
          | inl same_state ↦ Effect-at same_state nothing
          | inr (is_priced, changed) ↦ Effect-at changed (
              admits srv (priced rate id input) is_priced
                (λ now. inl (brings id (request_id_for-new seed w.entropy seeded) now)))
        ]

    repeats :
        (generation : ℤ)
        → Effect store rate (arrival ∷ came) db (Service.retry svc (route r.path).1 generation db).1
    repeats generation = elim (retry-state svc (route r.path).1 generation db) [
      | inl same_state ↦ Effect-at same_state nothing
      | inr changed ↦ Effect-at changed (retries srv (route r.path).1 generation)
    ]

    request-Effect : Effect store rate (arrival ∷ came) db (serve_http w h svc seed r db).2
    unfolding priced
    request-Effect = elim (serve_http-Changes w h svc seed r db) [
      | inl same_state ↦ Effect-at same_state nothing
      | inr (authorization, method, inl (path, (body, input, carried, decoded, changed))) ↦
          Effect-at changed (
            accepts input (λ id made now. record {
              authorization = authorization;
              method = method;
              path = path;
              body = body;
              carried = carried;
              decoded = decoded;
              request_id = made;
            }))
      | inr (_, _, inr (_, (_, generation, _, _, changed))) ↦ Effect-at changed (repeats generation)
    ]

  pub Step-Effect :
      {db db' : Db} (step : Step store rate db db') (came : List Arrival)
      → Effect store rate (with_arrival step came) db db'
  Step-Effect (requesting srv w seed r h db seeded random) came =
      request-Effect srv w seed r h db seeded random came
  Step-Effect (working srv limit db) came = settles srv limit

  Effect-Reach :
      {came : List Arrival} {db db' : Db}
      → Effect store rate came db db'
      → {start : Db} → Reach store start db
      → Reach store start db'
  Effect-Reach nothing r = r
  Effect-Reach {db = db} (admits srv e _ _) r = System.next r (accepting srv e db)
  Effect-Reach {db = db} (retries srv id generation) r =
      System.next r (retrying srv id generation db)
  Effect-Reach {db = db} (settles srv limit) r = System.next r (processing srv limit db)

  pub History-Reach : {db db' : Db} → History store rate db db' → Reach store db db'
  History-Reach here = System.here
  History-Reach (next before step) =
      Effect-Reach (Step-Effect step (arrivals before)) (History-Reach before)
