-- ===== src/Application/Arrivals.antt =====
-- The requests that come to the service, and which of them brought a row of accepted usage.
use usage_billing.Prelude.{Bytes, codes, true, false, List, [], ◌∷◌, ◌≡◌, ◌⊎◌}
use usage_billing.Prelude.Int.{ℤ}
use usage_billing.Errors.{ok}
use usage_billing.RequestId.{new}
use usage_billing.Http.Handler.{Handler, World, Request, authorized}
use usage_billing.Http.Guards.{Carries}
use usage_billing.Http.{route, decode_input}
use usage_billing.Postgres.{Db, UsageRow}
use usage_billing.Postgres.Store.{Store}
use usage_billing.Application.{Step, requesting, working, History, here, next}

-- A request as it came: the world and the handler it met, and the 16 bytes for its identifier.
pub record Arrival : Type 0 where
  pub world : World
  pub handler : Handler
  pub seed : Bytes
  pub request : Request

-- The requests of a history, the last one first.
abbrev pub with_arrival :
    {store : Store} {rate : ℤ} {db db' : Db} → Step store rate db db' → List Arrival → List Arrival
with_arrival (requesting srv w seed r h db _ _) came =
    record { world = w; handler = h; seed = seed; request = r } ∷ came
with_arrival (working srv limit db) came = came

abbrev pub arrivals :
    {store : Store} {rate : ℤ} {db db' : Db} → History store rate db db' → List Arrival
arrivals here = []
arrivals (next before step) = with_arrival step (arrivals before)

-- A request brings a row: it bears the token, posts to the path of the events, its body decodes to
-- the input that the row holds, and the identifier that was made for it is the row's.
pub record Brings (a : Arrival) (u : UsageRow) : Type 0 where
  pub authorization : authorized a.world a.handler a.request.authorization ≡ true
  pub method : a.request.method ≡ codes "POST"
  pub path : (route a.request.path).0 ≡ 3
  pub body : Bytes
  pub carried : Carries a.request body
  pub decoded :
      decode_input a.world.reader body
      ≡ ok (record {
        event_id = u.event_id;
        customer_id = u.customer_id;
        meter = u.meter;
        units = u.units;
      })
  pub request_id : u.request_id ≡ new a.seed

-- One of the requests brought the row.
abbrev pub IsBrought : List Arrival → UsageRow → Type 0
IsBrought [] u = false ≡ true
IsBrought (a ∷ came) u = Brings a u ⊎ IsBrought came u
