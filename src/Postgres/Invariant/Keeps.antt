-- ===== src/Postgres/Invariant/Keeps.antt =====
-- The changes of the tables that the operations make keep the invariant.
use usage_billing.Prelude.{
  ℕ, Bytes, same, same_iff, Bool, true, false, not, ◌&&◌, ◌||◌, [], ◌∷◌, length-append, All-append,
  ◌≡◌, refl, arith,
}
use usage_billing.Billing.{Event}
use usage_billing.Postgres.Table.{has}
use usage_billing.Postgres.Table.Laws.{has-append_one, HasUniqueKeys-append}
use usage_billing.Postgres.Schema.{Db, usage_key, pending_key, ledger_key, pending_checks}
use usage_billing.Postgres.Statements.{usage_row, pending_row}
use usage_billing.Postgres.Invariant.{IsConsistent, IsCheckedUsage, IsCheckedPending}
use usage_billing.Postgres.Store.Admission.{Admits}

pending_row-IsChecked : (id : Bytes) (now : ℕ) → IsCheckedPending (pending_row id now)
unfolding pending_checks same
pending_row-IsChecked id now = refl

-- A new key joins both tables, and the ledger cannot hold it.
waits-insert :
    (p u l : Bool) (b : Bool)
    → p ≡ (u && not l)
    → (l ≡ true → u ≡ true)
    → (b ≡ true → u ≡ false)
    → (p || b) ≡ ((u || b) && not l)
waits-insert p u l b h k n = ground arith

module _ {limit : ℕ} (event : Event) {db db' : Db} (h : IsConsistent limit db)
    (a : Admits limit event db db') where
  Admits-waits :
      (id : Bytes)
      → has pending_key id db'.pending
        ≡ (has usage_key id db'.usage && not (has ledger_key id db'.ledger))
  Admits-waits id =
      let (created, enqueued, fresh, free, checked, room, same_db) = a in
      let key = event.input.event_id in
      rw
        (
          same_db,
          has-append_one pending_key id db.pending (pending_row key enqueued),
          has-append_one usage_key id db.usage (usage_row event created),
        )
        (waits-insert _ _ _ _ (h.waits id) (h.posted id) (λ e. rw (← (same_iff key id).0 e) fresh))

  Admits-posted :
      (id : Bytes) → has ledger_key id db'.ledger ≡ true → has usage_key id db'.usage ≡ true
  Admits-posted id p =
      let (created, enqueued, fresh, free, checked, room, same_db) = a in
      let was : has ledger_key id db.ledger ≡ true = rw same_db at p in
      rw (same_db, has-append_one usage_key id db.usage (usage_row event created), h.posted id was)
        refl

  pub Admits-IsConsistent : IsConsistent limit db'
  Admits-IsConsistent =
      let (created, enqueued, fresh, free, checked, room, same_db) = a in
      record {
        usage_unique = rw same_db (HasUniqueKeys-append usage_key db.usage _ h.usage_unique fresh);
        pending_unique =
            rw same_db (HasUniqueKeys-append pending_key db.pending _ h.pending_unique free);
        ledger_unique = rw same_db h.ledger_unique;
        usage_checked =
            rw same_db (All-append IsCheckedUsage db.usage _ h.usage_checked (checked, tt));
        pending_checked = rw same_db (
            All-append IsCheckedPending db.pending _ h.pending_checked
              (pending_row-IsChecked event.input.event_id enqueued, tt));
        waits = Admits-waits;
        posted = Admits-posted;
        bounded = rw same_db (
            omega (
              arith,
              length-append {0} db.pending (pending_row event.input.event_id enqueued ∷ []),
            ));
      }
