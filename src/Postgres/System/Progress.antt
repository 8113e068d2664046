-- ===== src/Postgres/System/Progress.antt =====
-- What a server that does not fail lets the store do.
use usage_billing.Prelude.{
  ℕ, suc, ◌<◌, Bytes, String, Bool, true, false, some, none, List, [], ◌∷◌, ◌++◌, ◌≡◌, refl, ap,
  ◌∙◌, arith, length, min, leb, same_refl, not,
}
use usage_billing.Prelude.Int.{==ℤ_iff}
use usage_billing.Errors.{Result, ok, sentinel, queue_full, conflict}
use usage_billing.Billing.{ProcessingEvent, Event, Input, same_input, wrapping}
use usage_billing.Postgres.Table.{find, has}
use usage_billing.Postgres.Table.Laws.{has-append_one, find-append_new}
use usage_billing.Postgres.Schema.{Db, UsageRow, usage_key, pending_key, usage_checks}
use usage_billing.Postgres.Session.{
  Server, Session, Tx, on_tables, reading, begin, transaction, begun, finish, committed, applied,
  bound, relabel, send, answer, fail_if,
}
use usage_billing.Postgres.Statements.{
  event_of, select_event, usage_row, pending_row, insert_usage, take_lock, count_pending,
  insert_pending,
}
use usage_billing.Postgres.Store.{Store, accept_tx, accept, admit, read_event}
use usage_billing.Postgres.Store.Admission.{with_event}

-- A server on which nothing fails, at any times, in any collation and with any rows held.
abbrev pub healthy : (ℕ → ℕ) → (Bytes → Bool) → (Bytes → Bytes → Bool) → Server
healthy clock locked before = record {
  fault = λ n. none;
  clock = clock;
  locked = locked;
  before = before;
  cut = none;
  begins = none;
  commits = applied;
  rollbacks = none;
}

same_input_refl : (i : Input) → same_input i i ≡ true
unfolding same_input
same_input_refl i =
    rw
      (
        same_refl i.event_id,
        same_refl i.customer_id,
        same_refl i.meter,
        (==ℤ_iff i.units i.units).1 refl,
      )
      refl

room : (limit n : ℕ) → n < limit → leb limit (min limit n) ≡ false
room limit n h = ground arith

-- A transaction without savepoints, after n statements.
abbrev after : ℕ → Db → Session
after n db = record { db = db; savepoints = []; aborted = false; sent = n; claimed = [] }

pub bound-step :
    {A B : Type 0} {m : Result A × Session} (f : A → Tx B) {a : A} {s : Session}
    {r : Result B × Session}
    → m ≡ (ok a, s)
    → f a s ≡ r
    → bound m f ≡ r
unfolding bound
bound-step f e k = ap (λ x. bound x f) e ∙ k

module _ (clock : ℕ → ℕ) (locked : Bytes → Bool) (before : Bytes → Bytes → Bool) where
  sends :
      {A : Type 0} (text : String) (q : ℕ → Db → Result (A × Db)) (n : ℕ) (db db' : Db) (a : A)
      → q (clock n) db ≡ ok (a, db')
      → relabel text (send (healthy clock locked before) (on_tables q) (after n db))
        ≡ (ok a, after (suc n) db')
  unfolding send answer relabel
  sends text q n db db' a h = rw (relabel, answer, h) refl

  reads :
      {A : Type 0} (text : String) (q : Db → A) (n : ℕ) (db : Db) (a : A)
      → q db ≡ a
      → relabel text (send (healthy clock locked before) (reading q) (after n db))
        ≡ (ok a, after (suc n) db)
  unfolding send answer relabel
  reads text q n db a h = rw (relabel, answer, h) refl

  passes :
      (limit n : ℕ)
      → n < limit
      → (s : Session) → fail_if (leb limit (min limit n)) (sentinel queue_full) s ≡ (ok tt, s)
  unfolding fail_if
  passes limit n low s = rw (room limit n low) refl

  admits :
      (limit : ℕ) (id : Bytes) (db db' : Db)
      → length db.pending < limit
      → insert_pending id (clock 3) db ≡ ok (tt, db')
      → admit (healthy clock locked before) limit true id (after 1 db) ≡ (ok tt, after 4 db')
  unfolding admit
  admits limit id db db' low h =
      bound-step _ (sends "lock queue admission" take_lock 1 db db tt (unfold take_lock in refl)) (
        bound-step _
          (sends "check queue capacity" (count_pending limit) 2 db db
            (min limit (length db.pending)) (unfold count_pending in refl))
          (bound-step _ (passes limit (length db.pending) low (after 3 db))
            (sends "enqueue usage event" (insert_pending id) 3 db db' tt h)))

  reads_event :
      (id : Bytes) (n : ℕ) (db : Db) (e : Event)
      → select_event id db ≡ some e
      → read_event (healthy clock locked before) id (after n db) ≡ (ok e, after (suc n) db)
  unfolding read_event
  reads_event id n db e h =
      bound-step _ (reads "read usage event" (select_event id) n db (some e) h) refl

  agrees :
      (a b : Input) (s : Session)
      → same_input a b ≡ true
      → fail_if (not (same_input a b)) (sentinel conflict) s ≡ (ok tt, s)
  unfolding fail_if
  agrees a b s h = rw h refl

  admitted :
      (limit : ℕ) (event stored : Event) (db db₁ db₂ : Db)
      → insert_usage event (clock 0) db ≡ ok (true, db₁)
      → length db₁.pending < limit
      → insert_pending event.input.event_id (clock 3) db₁ ≡ ok (tt, db₂)
      → select_event event.input.event_id db₂ ≡ some stored
      → same_input stored.input event.input ≡ true
      → accept_tx (healthy clock locked before) limit event (begin db)
        ≡ (ok (stored, true), after 5 db₂)
  unfolding accept_tx
  admitted limit event stored db db₁ db₂ inserts low enqueues read same_in =
      bound-step _ (sends "insert usage event" (insert_usage event) 0 db db₁ true inserts) (
        bound-step _ (admits limit event.input.event_id db₁ db₂ low enqueues) (
          bound-step _ (reads_event event.input.event_id 4 db₂ stored read)
            (bound-step _ (agrees stored.input event.input (after 5 db₂) same_in) refl)))

  pub commits :
      {A : Type 0} (body : Tx A) (db db' : Db) (n : ℕ) (a : A)
      → body (begin db) ≡ (ok a, after n db')
      → transaction (healthy clock locked before) body db ≡ (ok a, db', [])
  unfolding transaction begun finish committed
  commits body db db' n a h = rw h refl

inserts_usage :
    (event : Event) (now : ℕ) (db : Db)
    → usage_checks (usage_row event now) ≡ true
    → has usage_key event.input.event_id db.usage ≡ false
    → insert_usage event now db
      ≡ ok (true, record db { usage = db.usage ++ usage_row event now ∷ [] })
unfolding insert_usage
inserts_usage event now db checks fresh = rw (checks, fresh) refl

inserts_pending :
    (id : Bytes) (now : ℕ) (db : Db)
    → has usage_key id db.usage ≡ true
    → has pending_key id db.pending ≡ false
    → insert_pending id now db
      ≡ ok (tt, record db { pending = db.pending ++ pending_row id now ∷ [] })
unfolding insert_pending
inserts_pending id now db there free = rw (there, free) refl

selects :
    (id : Bytes) (db : Db) (u : UsageRow)
    → find usage_key id db.usage ≡ some u
    → select_event id db ≡ some (event_of db u)
unfolding select_event
selects id db u h = rw (select_event, h) refl

-- With a server on which nothing fails and room in the queue, an event that meets the constraints and
-- is neither stored nor queued is accepted: `Accept` returns it as created, and leaves it stored and
-- queued.
pub accept-created :
    (clock : ℕ → ℕ) (locked : Bytes → Bool) (before : Bytes → Bytes → Bool) (store : Store)
    (event : Event) (db : Db)
    → usage_checks (usage_row event (clock 0)) ≡ true
    → has usage_key event.input.event_id db.usage ≡ false
    → has pending_key event.input.event_id db.pending ≡ false
    → length db.pending < store.max_pending
    → let db' = with_event event (clock 0) (clock 3) db in
      accept (healthy clock locked before) store event db
      ≡ (ok (event_of db' (usage_row event (clock 0)), true), db')
unfolding accept
accept-created clock locked before store event db checks fresh free low =
    let id = event.input.event_id in
    let u = usage_row event (clock 0) in
    let db₁ = record db { usage = db.usage ++ u ∷ [] } in
    let db' = with_event event (clock 0) (clock 3) db in
    let there : has usage_key id (db.usage ++ u ∷ []) ≡ true =
      has-append_one usage_key id db.usage u ∙ rw (same_refl id) ground arith in
    let done =
      admitted clock locked before store.max_pending event (event_of db' u) db db₁ db'
        (inserts_usage event (clock 0) db checks fresh) low
        (inserts_pending id (clock 3) db₁ there free)
        (selects id db' u (find-append_new usage_key id db.usage u fresh refl))
        (same_input_refl event.input) in
    let run =
      commits clock locked before (accept_tx (healthy clock locked before) store.max_pending event)
        db db' 5 (event_of db' u, true) done in
    ap
      (λ (x : Result (Event × Bool) × Db × List ProcessingEvent).
        (wrapping "accept usage" x.0, x.1))
      run
