-- ===== src/Application/Accepting.antt =====
-- A request that is accepted, from the handler down to the tables.
use usage_billing.Prelude.{
  ℕ, ◌<◌, Bytes, codes, same, Bool, true, false, some, none, List, [], length, ltb, ◌≡◌, refl, ap,
  ◌∙◌, arith,
}
use usage_billing.Prelude.Int.{ℤ, pos, leb_ℤ, ltb_ℤ, div64, max_int64}
use usage_billing.Errors.{Result, ok}
use usage_billing.RequestId.{Context, new, with_context}
use usage_billing.Billing.{Event, Input, validate_id, priced, request_id_for, wrapping}
use usage_billing.Billing.Pricing.{
  IsPriced, IsTraced, IsEntropy, priced-IsPriced, request_id_for-IsRequestId,
}
use usage_billing.Billing.Service
use usage_billing.Billing.Service.{Service}
use usage_billing.Http.{route, decode_input}
use usage_billing.Http.Handler.{
  Handler, World, Request, Response, Payload, event_body, serve_http, background, serve, dispatch,
  handle_accept, accept_input, read_body, write_json, changed, authorized, expected_method,
}
use usage_billing.Postgres.{Db, Server, usage_row, event_of, has, usage_key, pending_key}
use usage_billing.Postgres.Invariant.{IsConsistent}
use usage_billing.Postgres.Store.{Store}
use usage_billing.Postgres.Store.Admission.{with_event}
use usage_billing.Postgres.System.Progress.{healthy, accept-created}
use usage_billing.Application.{service_over}
use usage_billing.Application.Charges.{IsPriced-usage_checks}
use usage_billing.Application.Effects.{traced}

-- An input that the service prices at the rate without overflow.
pub record IsChargeable (rate : ℤ) (input : Input) : Type 0 where
  pub positive : leb_ℤ rate (pos 0) ≡ false
  pub event_id : validate_id input.event_id ≡ none
  pub customer_id : validate_id input.customer_id ≡ none
  pub meter : same input.meter (codes "api_calls") ≡ true
  pub units : leb_ℤ input.units (pos 0) ≡ false
  pub fits : ltb_ℤ (div64 (pos max_int64) rate) input.units ≡ false

-- Room for a new event.
pub record IsOpen (store : Store) (id : Bytes) (db : Db) : Type 0 where
  pub consistent : IsConsistent store.max_pending db
  pub fresh : has usage_key id db.usage ≡ false
  pub room : length db.pending < store.max_pending

-- The request that a client sends: the token in a header, and a JSON body.
abbrev pub post : List Bytes → Bytes → Request
post credentials body = record {
  method = codes "POST";
  path = codes "/v1/events";
  authorization = credentials;
  media_type = some (codes "application/json");
  body = some body;
}

not_queued :
    (store : Store) (id : Bytes) (db : Db)
    → IsOpen store id db
    → has pending_key id db.pending ≡ false
not_queued store id db h = h.consistent.waits id ∙ rw h.fresh refl

module _ (clock : ℕ → ℕ) (locked : Bytes → Bool) (before : Bytes → Bytes → Bool) (store : Store)
    (rate : ℤ) where
  abbrev server : Server
  server = healthy clock locked before

  -- The event as the service prices it, the tables after its admission, and what is read back.
  abbrev pub charged : Context → Bytes → Input → Event
  charged ctx raw input = priced rate (request_id_for ctx raw) input

  abbrev pub admitted : Event → Db → Db
  admitted e db = with_event e (clock 0) (clock 3) db

  abbrev pub stored : Event → Db → Event
  stored e db = event_of (admitted e db) (usage_row e (clock 0))

  pub charged-IsPriced :
      (ctx : Context) (raw : Bytes) (input : Input)
      → IsTraced ctx
      → IsEntropy raw
      → IsChargeable rate input
      → IsPriced rate (charged ctx raw input)
  charged-IsPriced ctx raw input t e h =
      priced-IsPriced rate (request_id_for ctx raw) input h.positive
        (request_id_for-IsRequestId ctx raw t e) h.event_id h.customer_id h.meter h.units h.fits

  pub service-created :
      (ctx : Context) (raw : Bytes) (input : Input) (db : Db)
      → IsTraced ctx
      → IsEntropy raw
      → IsChargeable rate input
      → IsOpen store input.event_id db
      → Service.accept (service_over server store rate) ctx raw input db
        ≡ (ok (stored (charged ctx raw input) db, true), admitted (charged ctx raw input) db)
  unfolding Service.accept priced
  service-created ctx raw input db t e h o =
      let event = charged ctx raw input in
      let created =
        accept-created clock locked before store event db
          (IsPriced-usage_checks rate event (clock 0) (ground arith)
            (charged-IsPriced ctx raw input t e h))
          o.fresh (not_queued store input.event_id db o) o.room in
      rw (h.event_id, h.customer_id, h.meter, h.units, h.fits)
        (ap (λ (x : Result (Event × Bool) × Db). (wrapping "accept usage" x.0, x.1)) created)

  sized-body :
      (w : World) (h : Handler) (credentials : List Bytes) (body : Bytes)
      → ltb 16384 (length body) ≡ false
      → read_body w h (post credentials body) ≡ (body, none)
  unfolding read_body same
  sized-body w h credentials body p = rw (p) refl

  module _ (w : World) (h : Handler) (ctx : Context)
      (encodes : (p : Payload) → w.encodes p ≡ true) where
    abbrev accepted : Event → Response
    accepted event = record { status = 202; payload = event_body event; headers = [] }

    handled :
        (credentials : List Bytes) (body : Bytes) (input : Input) (event : Event) (db db' : Db)
        → ltb 16384 (length body) ≡ false
        → decode_input w.reader body ≡ ok input
        → Service.accept (service_over server store rate) ctx w.entropy input db
          ≡ (ok (event, true), db')
        → handle_accept w h (service_over server store rate) ctx (post credentials body) db
          ≡ (accepted event, db')
    unfolding handle_accept accept_input changed write_json
    handled credentials body input event db db' size decoded created =
        rw (sized-body w h credentials body size, decoded, created, encodes (event_body event)) refl

    served :
        (credentials : List Bytes) (body : Bytes) (x : Response × Db) (db : Db)
        → authorized w h credentials ≡ true
        → handle_accept w h (service_over server store rate) ctx (post credentials body) db ≡ x
        → serve w h (service_over server store rate) ctx (post credentials body) 3 [] db ≡ x
    unfolding serve dispatch expected_method same
    served credentials body x db auth answer = rw (auth) answer

  -- With a server on which nothing fails, tables that are consistent and have room, and an input of
  -- new identifier that the service can price, a POST that bears the token is answered with 202 and
  -- the priced event, and leaves it stored and queued.
  pub serve_http-accepted :
      (w : World) (h : Handler) (seed : Bytes) (credentials : List Bytes) (body : Bytes)
      (input : Input) (db : Db)
      → authorized w h credentials ≡ true
      → ltb 16384 (length body) ≡ false
      → decode_input w.reader body ≡ ok input
      → IsEntropy w.entropy
      → ((p : Payload) → w.encodes p ≡ true)
      → IsChargeable rate input
      → IsOpen store input.event_id db
      → let event = charged (with_context background (new seed)) w.entropy input in
        let result =
          serve_http w h (service_over server store rate) seed (post credentials body) db in
        (result.0.status ≡ 202)
        × (result.0.payload ≡ event_body (stored event db))
        × (result.2 ≡ admitted event db)
  unfolding serve_http route same
  serve_http-accepted w h seed credentials body input db auth size decoded random encodes chargeable
        opened =
      let ctx = with_context background (new seed) in
      let created = service-created ctx w.entropy input db (traced seed) random chargeable opened in
      let event = charged ctx w.entropy input in
      let answer = served w h ctx encodes credentials body _ db auth (
        handled w h ctx encodes credentials body input (stored event db) db (admitted event db) size
          decoded created) in
      (
        ap (λ (x : Response × Db). x.0.status) answer,
        ap (λ (x : Response × Db). x.0.payload) answer,
        ap (λ (x : Response × Db). x.1) answer,
      )
