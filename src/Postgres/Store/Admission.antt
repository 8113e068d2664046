-- ===== src/Postgres/Store/Admission.antt =====
-- What a committed `Accept` has done to the tables.
use usage_billing.Prelude.{
  ℕ, ◌<◌, Bytes, Bool, true, false, not, Option, none, some, [], ◌∷◌, ◌++◌, length, min, leb, ◌≡◌,
  ◌⊎◌, inl, inr, refl, ap, sym, ◌∙◌, arith,
}
use usage_billing.Errors.{ok}
use usage_billing.Billing.{Event, same_input}
use usage_billing.Postgres.Table.{has}
use usage_billing.Postgres.Schema.{Db, usage_key, pending_key, usage_checks}
use usage_billing.Postgres.Session.{Server, Session}
use usage_billing.Postgres.Session.Inversion.{
  bound-ok, on_tables-db, reading-db, fail_if-ok, pure-ok,
}
use usage_billing.Postgres.Statements.{
  usage_row, pending_row, take_lock, insert_usage, insert_pending, count_pending, select_event,
}
use usage_billing.Postgres.Store.{found, read_event, admit, accept_tx}

abbrev AddsUsage : Event → ℕ → Db → Bool → Db → Type 0
AddsUsage event now db created db' =
    ((has usage_key event.input.event_id db.usage ≡ true) × (created ≡ false) × (db' ≡ db))
    ⊎ ((has usage_key event.input.event_id db.usage ≡ false)
        × (created ≡ true)
        × (db' ≡ record db { usage = db.usage ++ usage_row event now ∷ [] }))

insert_usage_inv :
    (event : Event) (now : ℕ) (db : Db) (created : Bool) (db' : Db)
    → insert_usage event now db ≡ ok (created, db')
    → (usage_checks (usage_row event now) ≡ true) × AddsUsage event now db created db'
unfolding insert_usage
insert_usage_inv event now db created db' h = ground arith

insert_pending_inv :
    (id : Bytes) (now : ℕ) (db db' : Db)
    → insert_pending id now db ≡ ok (tt, db')
    → (has pending_key id db.pending ≡ false)
      × (db' ≡ record db { pending = db.pending ++ pending_row id now ∷ [] })
unfolding insert_pending
insert_pending_inv id now db db' h = ground arith

take_lock_inv : (now : ℕ) (db db' : Db) → take_lock now db ≡ ok (tt, db') → db' ≡ db
unfolding take_lock
take_lock_inv now db db' h = cc

count_pending_inv :
    (limit now n : ℕ) (db db' : Db)
    → count_pending limit now db ≡ ok (n, db')
    → (n ≡ min limit (length db.pending)) × (db' ≡ db)
unfolding count_pending
count_pending_inv limit now n db db' h = (cc, cc)

-- The admission of a new event: there was room, and one pending row is added.
abbrev Enqueues : ℕ → Bytes → Db → Db → Type 0
Enqueues limit id db db' =
    (now : ℕ) × (length db.pending < limit)
    × (has pending_key id db.pending ≡ false)
    × (db' ≡ record db { pending = db.pending ++ pending_row id now ∷ [] })

enqueues :
    (limit n lock_time count_time now : ℕ) (id : Bytes) (db db₁ db₂ db₃ : Db)
    → take_lock lock_time db ≡ ok (tt, db₁)
    → count_pending limit count_time db₁ ≡ ok (n, db₂)
    → leb limit n ≡ false
    → insert_pending id now db₂ ≡ ok (tt, db₃)
    → Enqueues limit id db db₃
enqueues limit n t₁ t₂ now id db db₁ db₂ db₃ locks counts room inserts =
    let same₁ : db₁ ≡ db = take_lock_inv t₁ db db₁ locks in
    let (counted, same₂) = count_pending_inv limit t₂ n db₁ db₂ counts in
    let same : db₂ ≡ db = same₂ ∙ same₁ in
    let (fresh, added) = insert_pending_inv id now db db₃ (rw same at inserts) in
    let n_db : n ≡ min limit (length db.pending) = rw same₁ at counted in
    (now, ground arith, fresh, added)

admit_inv :
    (srv : Server) (limit : ℕ) (id : Bytes) (s t : Session)
    → admit srv limit true id s ≡ (ok tt, t)
    → Enqueues limit id s.db t.db
unfolding admit
admit_inv srv limit id s t h =
    let (_, s₁, locks, h₁) = bound-ok h in
    let (n, s₂, counts, h₂) = bound-ok h₁ in
    let (_, s₃, tests, h₃) = bound-ok h₂ in
    let (room, same₃) = fail_if-ok _ _ _ tests in
    let (t₁, lock) = on_tables-db _ _ _ _ locks in
    let (t₂, count) = on_tables-db _ _ _ _ counts in
    let (now, insert) = on_tables-db _ _ _ _ (rw same₃ at h₃) in
    enqueues limit n t₁ t₂ now id s.db s₁.db s₂.db t.db lock count room insert

-- A committed `Accept`: the event was there, and is returned as stored; or it is new, and a row in
-- each of two tables is added.
abbrev pub Replays : Event → Db → Db → Type 0
Replays event db db' = (has usage_key event.input.event_id db.usage ≡ true) × (db' ≡ db)

abbrev pub with_event : Event → ℕ → ℕ → Db → Db
with_event event created enqueued db = record db {
  usage = db.usage ++ usage_row event created ∷ [];
  pending = db.pending ++ pending_row event.input.event_id enqueued ∷ [];
}

abbrev pub Admits : ℕ → Event → Db → Db → Type 0
Admits limit event db db' =
    (created : ℕ) × (enqueued : ℕ) × (has usage_key event.input.event_id db.usage ≡ false)
    × (has pending_key event.input.event_id db.pending ≡ false)
    × (usage_checks (usage_row event created) ≡ true)
    × (length db.pending < limit)
    × (db' ≡ with_event event created enqueued db)

abbrev pub Accepts : ℕ → Event → Event × Bool → Db → Db → Type 0
Accepts limit event (stored, created) db db' =
    (select_event event.input.event_id db' ≡ some stored)
    × (same_input stored.input event.input ≡ true)
    × (((created ≡ false) × Replays event db db') ⊎ ((created ≡ true) × Admits limit event db db'))

found_inv :
    (row : Option Event) (e : Event) (s t : Session)
    → found row s ≡ (ok e, t)
    → (row ≡ some e) × (t ≡ s)
found_inv none e s t h = cc
found_inv (some x) e s t h = (cc, cc)

pub read_event_inv :
    (srv : Server) (id : Bytes) (s : Session) (e : Event) (t : Session)
    → read_event srv id s ≡ (ok e, t)
    → (select_event id s.db ≡ some e) × (t.db ≡ s.db)
unfolding read_event
read_event_inv srv id s e t h =
    let (row, s₁, reads, h₁) = bound-ok h in
    let (value, same) = reading-db _ _ _ _ reads in
    let (found_e, same₁) = found_inv row e s₁ t h₁ in (sym value ∙ found_e, rw same₁ same)

admits :
    (srv : Server) (limit : ℕ) (event : Event) (created : Bool) (now : ℕ) (s t : Session)
    → usage_checks (usage_row event now) ≡ true
    → (db₀ : Db) → AddsUsage event now db₀ created s.db
    → admit srv limit created event.input.event_id s ≡ (ok tt, t)
    → ((created ≡ false) × Replays event db₀ t.db)
      ⊎ ((created ≡ true) × Admits limit event db₀ t.db)
admits srv limit event true now s t checks db₀ (inl (there, fresh, same)) h = cc
admits srv limit event false now s t checks db₀ (inr (fresh, there, same)) h = cc
admits srv limit event false now s t checks db₀ (inl (there, _, same)) h =
    unfold admit in (let stays : s ≡ t = cc in inl (refl, (there, rw (← stays) same)))
admits srv limit event true now s t checks db₀ (inr (fresh, _, same)) h =
    let (enqueued, room, free, added) = admit_inv srv limit event.input.event_id s t h in
    let pending_same : s.db.pending ≡ db₀.pending = ap (λ (d : Db). d.pending) same in
    inr (
      refl,
      (
        now,
        enqueued,
        fresh,
        rw pending_same at free,
        checks,
        rw pending_same at room,
        added
            ∙ ap
                (λ (d : Db). record d {
                  pending = d.pending ++ pending_row event.input.event_id enqueued ∷ [];
                })
                same,
      ),
    )

Bool-not-false : (b : Bool) → not b ≡ false → b ≡ true
Bool-not-false b h = ground arith

accepted :
    (limit : ℕ) (event : Event) (db db₂ : Db) {read stored : Event} {made created : Bool} {db' : Db}
    → read ≡ stored
    → made ≡ created
    → db' ≡ db₂
    → Accepts limit event (read, made) db db₂
    → Accepts limit event (stored, created) db db'
accepted limit event db db₂ r m d h = rw (← r, ← m, d) h

-- A callback of `Accept` that ends well replays a stored event or admits a new one, and nothing
-- else.
pub accept_tx-Accepts :
    (srv : Server) (limit : ℕ) (event stored : Event) (created : Bool) (s t : Session)
    → accept_tx srv limit event s ≡ (ok (stored, created), t)
    → Accepts limit event (stored, created) s.db t.db
unfolding accept_tx
accept_tx-Accepts srv limit event stored created s t h =
    let (made, s₁, inserts, h₁) = bound-ok h in
    let (_, s₂, admit_ok, h₂) = bound-ok h₁ in
    let (read, s₃, reads, h₃) = bound-ok h₂ in
    let (_, s₄, tests, h₄) = bound-ok h₃ in
    let (now, insert) = on_tables-db _ _ _ _ inserts in
    let (checks, adds) = insert_usage_inv event now s.db made s₁.db insert in
    let (event_there, same₃) = read_event_inv srv event.input.event_id s₂ read s₃ reads in
    let (agrees, same₄) = fail_if-ok _ _ _ tests in
    let (same_event, same_flag, same_state) = pure-ok h₄ in
    accepted limit event s.db s₂.db same_event same_flag
      (ap (λ (u : Session). u.db) (sym same_state ∙ same₄) ∙ same₃)
      (
        event_there,
        Bool-not-false (same_input read.input event.input) agrees,
        admits srv limit event made now s₁ s₂ checks s.db adds admit_ok,
      )
