-- ===== src/Postgres/Store/Retrying.antt =====
-- What a committed `Retry` has done to the tables.
use usage_billing.Prelude.{
  ℕ, ◌<◌, Bytes, Bool, true, false, Option-cases, none, some, all, ◌≡◌, ◌⊎◌, inl, inr, ap, sym, ◌∙◌,
  arith,
}
use usage_billing.Prelude.Int.{ℤ, pos, add64, ==ℤ_iff}
use usage_billing.Errors.{Result, ok}
use usage_billing.Billing.{Event}
use usage_billing.Postgres.Table.{find, update}
use usage_billing.Postgres.Schema.{Db, PendingRow, pending_key, pending_checks}
use usage_billing.Postgres.Session.{Server, Session}
use usage_billing.Postgres.Session.Inversion.{bound-ok, on_tables-db, reading-db, pure-ok}
use usage_billing.Postgres.Statements.{
  select_event, select_pending, update_pending, update_retried, reactivate,
}
use usage_billing.Postgres.Store.{
  reactivation, repetition, mismatch, retry_case, run_case, retry_row, retry_tx,
}
use usage_billing.Postgres.Store.Admission.{read_event_inv}

-- The queue's row is updated, and all rows meet their constraints.
abbrev pub Updates : Bytes → (PendingRow → PendingRow) → Db → Db → Type 0
Updates id f db db' =
    (all pending_checks (update pending_key id f db.pending) ≡ true)
    × (db' ≡ record db { pending = update pending_key id f db.pending })

pub update_pending_inv :
    (id : Bytes) (f : PendingRow → PendingRow) (db db' : Db)
    → update_pending id f db ≡ ok (tt, db')
    → Updates id f db db'
unfolding update_pending
update_pending_inv id f db db' h = ground arith

update_retried_inv :
    (id : Bytes) (now : ℕ) (db db' : Db)
    → update_retried id now db ≡ ok (tt, db')
    → Updates id (reactivate now) db db'
unfolding update_retried
update_retried_inv id now db db' h = ground arith

-- A failed row of that generation becomes due again, one generation later.
abbrev pub Reactivates : Bytes → ℤ → Db → Db → Type 0
Reactivates id generation db db' =
    (now : ℕ) × (p : PendingRow) × (find pending_key id db.pending ≡ some p)
    × (p.processing_failures ≡ 3)
    × (p.retry_generation ≡ generation)
    × Updates id (reactivate now) db db'

-- There is nothing to do: the event is no longer queued, or that generation was reactivated before
-- and has not failed again.
abbrev pub IsApplied : Bytes → ℤ → Db → Type 0
IsApplied id generation db =
    (find pending_key id db.pending ≡ none)
    ⊎ ((p : PendingRow) × (find pending_key id db.pending ≡ some p)
        × (p.processing_failures < 3)
        × (p.retry_generation ≡ add64 generation (pos 1)))

abbrev pub Retries : Bytes → ℤ → Bool → Db → Db → Type 0
Retries id generation retried db db' =
    ((retried ≡ true) × Reactivates id generation db db')
    ⊎ ((retried ≡ false) × (db' ≡ db) × IsApplied id generation db)

retry_case_inv :
    (failures : ℕ) (current generation : ℤ)
    → ((retry_case failures current generation ≡ reactivation)
        × (failures ≡ 3)
        × (current ≡ generation))
      ⊎ ((retry_case failures current generation ≡ repetition)
          × (failures < 3)
          × (current ≡ add64 generation (pos 1)))
      ⊎ (retry_case failures current generation ≡ mismatch)
unfolding retry_case
retry_case_inv failures current generation =
    ground (arith, ==ℤ_iff current generation, ==ℤ_iff current (add64 generation (pos 1)))

flag_inv :
    {b c : Bool} {s t : Session}
    → ◌≡◌ {A = Result Bool × Session} (ok b, s) (ok c, t)
    → (b ≡ c) × (s ≡ t)
flag_inv h = (cc, cc)

run_reactivation :
    (srv : Server) (id : Bytes) (s : Session) (retried : Bool) (t : Session)
    → run_case srv reactivation id s ≡ (ok retried, t)
    → (retried ≡ true) × (now : ℕ) × Updates id (reactivate now) s.db t.db
unfolding run_case
run_reactivation srv id s retried t h =
    let (_, s₁, updates, h₁) = bound-ok h in
    let (now, update) = on_tables-db _ _ _ _ updates in
    let (flag, same) = flag_inv h₁ in
    (sym flag, now, rw (← same) (update_retried_inv id now s.db s₁.db update))

run_repetition :
    (srv : Server) (id : Bytes) (s : Session) (retried : Bool) (t : Session)
    → run_case srv repetition id s ≡ (ok retried, t)
    → (false ≡ retried) × (s ≡ t)
unfolding run_case
run_repetition srv id s retried t h = flag_inv h

run_mismatch :
    (srv : Server) (id : Bytes) (s : Session) (retried : Bool) (t : Session)
    → run_case srv mismatch id s ≡ (ok retried, t)
    → {P : Type 0} → P
unfolding run_case
run_mismatch srv id s retried t h = cc

run_case_inv :
    (srv : Server) (id : Bytes) (generation : ℤ) (p : PendingRow) (s : Session) (retried : Bool)
    (t : Session)
    → find pending_key id s.db.pending ≡ some p
    → run_case srv (retry_case p.processing_failures p.retry_generation generation) id s
      ≡ (ok retried, t)
    → Retries id generation retried s.db t.db
run_case_inv srv id generation p s retried t e h =
    elim (retry_case_inv p.processing_failures p.retry_generation generation) [
      | inl (chosen, three, current) ↦
          let (flag, now, update) = run_reactivation srv id s retried t (rw chosen at h) in
          inl (flag, (now, p, e, three, current, update))
      | inr (inl (chosen, fewer, current)) ↦
          let (flag, same) = run_repetition srv id s retried t (rw chosen at h) in
          inr (sym flag, ap (λ (u : Session). u.db) (sym same), inr (p, e, fewer, current))
      | inr (inr chosen) ↦ run_mismatch srv id s retried t (rw chosen at h)
    ]

select_pending_inv :
    (id : Bytes) (db : Db)
    → ((find pending_key id db.pending ≡ none) × (select_pending id db ≡ none))
      ⊎ ((p : PendingRow) × (find pending_key id db.pending ≡ some p)
          × (select_pending id db ≡ some (p.processing_failures, p.retry_generation)))
unfolding select_pending
select_pending_inv id db = elim (Option-cases (find pending_key id db.pending)) [
  | inl e ↦ inl (e, rw (e, select_pending))
  | inr (p, e) ↦ inr (p, e, rw (e, select_pending))
]

retry_row_inv :
    (srv : Server) (id : Bytes) (generation : ℤ) (s : Session) (retried : Bool) (t : Session)
    → retry_row srv id generation (select_pending id s.db) s ≡ (ok retried, t)
    → Retries id generation retried s.db t.db
unfolding retry_row
retry_row_inv srv id generation s retried t h = elim (select_pending_inv id s.db) [
  | inl (e, selects) ↦
      let (flag, same) = flag_inv {t = t} (rw selects at h) in
      inr (sym flag, ap (λ (u : Session). u.db) (sym same), inl e)
  | inr (p, e, selects) ↦ run_case_inv srv id generation p s retried t e (rw selects at h)
]

retried_as :
    (id : Bytes) (generation : ℤ) (db db₂ : Db) {read event : Event} {made retried : Bool}
    {db' : Db}
    → read ≡ event
    → made ≡ retried
    → db' ≡ db₂
    → (select_event id db₂ ≡ some read) × Retries id generation made db db₂
    → (select_event id db' ≡ some event) × Retries id generation retried db db'
retried_as id generation db db₂ r m d h = rw (← r, ← m, d) h

-- A callback of `Retry` that ends well reactivates the failed row of that generation, or changes
-- nothing, since that was done before or the event is not queued; it returns the event as stored.
pub retry_tx-Retries :
    (srv : Server) (id : Bytes) (generation : ℤ) (event : Event) (retried : Bool) (s t : Session)
    → retry_tx srv id generation s ≡ (ok (event, retried), t)
    → (select_event id t.db ≡ some event) × Retries id generation retried s.db t.db
unfolding retry_tx
retry_tx-Retries srv id generation event retried s t h =
    let (row, s₁, locks, h₁) = bound-ok h in
    let (made, s₂, runs, h₂) = bound-ok h₁ in
    let (read, s₃, reads, h₃) = bound-ok h₂ in
    let (row_value, same₁) = reading-db _ _ _ _ locks in
    let (event_there, same₃) = read_event_inv srv id s₂ read s₃ reads in
    let (same_event, same_flag, same_state) = pure-ok h₃ in
    let runs' : retry_row srv id generation (select_pending id s₁.db) s₁ ≡ (ok made, s₂) =
      rw (row_value, ← same₁) at runs in
    retried_as id generation s.db s₂.db same_event same_flag
      (ap (λ (u : Session). u.db) (sym same_state) ∙ same₃)
      (event_there, rw same₁ at (retry_row_inv srv id generation s₁ made s₂ runs'))
