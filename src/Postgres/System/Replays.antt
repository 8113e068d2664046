-- ===== src/Postgres/System/Replays.antt =====
-- Accepting an event again: the first price stands.
use usage_billing.Prelude.{ℕ, Bytes, String, Bool, true, false, some, ◌≡◌, inl, inr, ap, arith}
use usage_billing.Errors.{Result, ok, err}
use usage_billing.Billing.{Event, same_input, wrapping}
use usage_billing.Postgres.Table.{find}
use usage_billing.Postgres.Table.Laws.{has-find}
use usage_billing.Postgres.Schema.{Db, UsageRow, usage_key}
use usage_billing.Postgres.Session.{Server, begin}
use usage_billing.Postgres.Session.Inversion.{transaction-success}
use usage_billing.Postgres.Statements.{event_of, select_event}
use usage_billing.Postgres.Store.{Store, accept_tx, accept}
use usage_billing.Postgres.Store.Admission.{Accepts, accept_tx-Accepts}

wrapping-ok :
    {A : Type 0} (text : String) (r : Result A) (a : A)
    → (◌≡◌ {A = Result A} (wrapping text r) (ok a))
    → r ≡ ok a
wrapping-ok text (ok a) b h = h
wrapping-ok text (err e) b h = cc

select_event-find :
    (id : Bytes) (db : Db) (u : UsageRow) (e : Event)
    → find usage_key id db.usage ≡ some u
    → select_event id db ≡ some e
    → e ≡ event_of db u
unfolding select_event
select_event-find id db u e f h =
    let k : some (event_of db u) ≡ some e = rw (select_event, f) at h in cc

-- What accepting a stored event again gives: the stored price, amount and request identifier.
pub record IsReplay (u : UsageRow) (event stored : Event) (created : Bool) (db db' : Db)
    : Type 0 where
  pub price : stored.unit_price_micros ≡ u.unit_price_micros
  pub amount : stored.amount_micros ≡ u.amount_micros
  pub request : stored.request_id ≡ u.request_id
  pub input : same_input stored.input event.input ≡ true
  pub flag : created ≡ false
  pub kept : db' ≡ db

replayed :
    (limit : ℕ) (event stored : Event) (created : Bool) (db db' : Db) (u : UsageRow)
    → find usage_key event.input.event_id db.usage ≡ some u
    → Accepts limit event (stored, created) db db'
    → IsReplay u event stored created db db'
replayed limit event stored created db db' u f (read, agrees, inr (_, (_, _, fresh, _, _, _, _))) =
    let there = has-find usage_key event.input.event_id db.usage u f in absurd (ground arith)
replayed limit event stored created db db' u f (read, agrees, inl (flag, (_, kept))) =
    let read_db : select_event event.input.event_id db ≡ some stored = rw kept at read in
    let value : stored ≡ event_of db u =
      select_event-find event.input.event_id db u stored f read_db in
    record {
      price = ap (λ (e : Event). e.unit_price_micros) value;
      amount = ap (λ (e : Event). e.amount_micros) value;
      request = ap (λ (e : Event). e.request_id) value;
      input = agrees;
      flag = flag;
      kept = kept;
    }

-- Accepting an event whose identifier is stored, at whatever price it now has, returns the stored
-- price, amount and request identifier, only if the inputs agree, reports no creation, and changes no
-- table.
pub accept-IsReplay :
    (store : Store) (srv : Server) (event stored : Event) (created : Bool) (db : Db) (u : UsageRow)
    → find usage_key event.input.event_id db.usage ≡ some u
    → (accept srv store event db).0 ≡ ok (stored, created)
    → IsReplay u event stored created db (accept srv store event db).1
unfolding accept
accept-IsReplay store srv event stored created db u f h =
    let r = wrapping-ok "accept usage" _ (stored, created) h in
    let (s, e, same) =
      transaction-success srv (accept_tx srv store.max_pending event) db (stored, created) r in
    rw same (
      replayed store.max_pending event stored created db s.db u f
        (accept_tx-Accepts srv store.max_pending event stored created (begin db) s e))
