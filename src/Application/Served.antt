-- ===== src/Application/Served.antt =====
-- The tables under any sequence of requests and batches, and which request brought which row.
use usage_billing.Prelude.{ℕ, false, All, List, [], ◌∷◌, ◌≡◌, inr}
use usage_billing.Prelude.Int.{ℤ, pos, ◌≤ℤ◌, ◌*ℤ◌, IsInt64, leb_ℤ}
use usage_billing.RequestId.Laws.{IsRequestId}
use usage_billing.Billing.{Event}
use usage_billing.Billing.Pricing.{IsPriced}
use usage_billing.Postgres.{Db, UsageRow, usage_row}
use usage_billing.Postgres.Invariant.{IsConsistent}
use usage_billing.Postgres.Store.{Store}
use usage_billing.Postgres.System.{empty}
use usage_billing.Postgres.System.Steps.{reachable-IsConsistent}
use usage_billing.Postgres.System.Rows.{accept-rows, retry-usage, batch-usage}
use usage_billing.Application.{Step, requesting, working, History, here, next}
use usage_billing.Application.Arrivals.{Arrival, IsBrought, with_arrival, arrivals}
use usage_billing.Application.Effects.{
  Effect, nothing, admits, retries, settles, Step-Effect, History-Reach,
}

-- A row of accepted usage as the service charges it: the rate it runs at, and the exact product,
-- which fits an int64.
pub record IsCharged (rate : ℤ) (u : UsageRow) : Type 0 where
  pub units : pos 1 ≤ℤ u.units
  pub price : u.unit_price_micros ≡ rate
  pub exact : u.amount_micros ≡ u.units *ℤ rate
  pub in_range : IsInt64 u.amount_micros
  pub request_id : IsRequestId u.request_id

-- A row that is charged so and that one of the requests brought.
abbrev pub IsServed : ℤ → List Arrival → UsageRow → Type 0
IsServed rate came u = IsCharged rate u × IsBrought came u

usage_row-IsCharged :
    (rate : ℤ) (e : Event) (now : ℕ) → IsPriced rate e → IsCharged rate (usage_row e now)
usage_row-IsCharged rate e now h = record {
  units = h.units;
  price = h.price;
  exact = h.exact;
  in_range = h.in_range;
  request_id = h.request_id;
}

Effect-rows :
    (store : Store) (rate : ℤ) {came : List Arrival} {db db' : Db}
    → Effect store rate came db db'
    → All (IsServed rate came) db.usage
    → All (IsServed rate came) db'.usage
Effect-rows store rate nothing p = p
Effect-rows store rate {came} {db} (admits srv e is_priced brought) p =
    accept-rows (IsServed rate came) store srv e db p
      (λ now. (usage_row-IsCharged rate e now is_priced, brought now))
Effect-rows store rate {db = db} (retries srv id generation) p =
    rw (retry-usage srv id generation db) p
Effect-rows store rate {db = db} (settles srv limit) p = rw (batch-usage srv limit db) p

-- A row that an earlier request brought.
later :
    (rate : ℤ) (a : Arrival) (came : List Arrival) (rows : List UsageRow)
    → All (IsServed rate came) rows
    → All (IsServed rate (a ∷ came)) rows
later rate a came [] h = tt
later rate a came (u ∷ rows) ((charge, brought), h) =
    ((charge, inr brought), later rate a came rows h)

still_served :
    {store : Store} (rate : ℤ) {db db' : Db} (step : Step store rate db db') (came : List Arrival)
    (rows : List UsageRow)
    → All (IsServed rate came) rows
    → All (IsServed rate (with_arrival step came)) rows
still_served rate (requesting srv w seed r h db _ _) came rows p = later rate _ came rows p
still_served rate (working srv limit db) came rows p = p

-- The whole service at a positive rate, from the empty tables: whatever requests come, authorized or
-- not, whatever the worker's batches and their failures, the tables are consistent, and each row of
-- accepted usage is charged at the rate of the service, exactly, within an int64, and was brought by
-- one of the requests: one that bears the token and posts to the path of the events, whose body
-- decodes to the input of the row, and whose identifier, made from the 16 random bytes of that
-- request, is the 32 hexadecimal digits of the row.
pub served-IsConsistent :
    (store : Store) (rate : ℤ) (db : Db)
    → leb_ℤ rate (pos 0) ≡ false
    → (history : History store rate empty db)
    → IsConsistent store.max_pending db
      × All (λ u. IsCharged rate u × IsBrought (arrivals history) u) db.usage
served-IsConsistent store rate db positive history =
    (reachable-IsConsistent store db (History-Reach store rate positive history), rows history)
  where
    rows : {t : Db} (h : History store rate empty t) → All (IsServed rate (arrivals h)) t.usage
    rows here = tt
    rows (next {mid} before step) =
        Effect-rows store rate (Step-Effect store rate positive step (arrivals before))
          (still_served rate step (arrivals before) mid.usage (rows before))
