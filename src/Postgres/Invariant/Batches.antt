-- ===== src/Postgres/Invariant/Batches.antt =====
-- Posting, recorded failures and reactivations keep the invariant.
use usage_billing.Prelude.{
  ℕ, Bytes, same, same_iff, Bool, Bool-cases, true, not, ◌&&◌, ◌||◌, List, [], ◌∷◌, all, All, ◌≡◌,
  inl, inr, refl, ap, ◌∙◌, arith,
}
use usage_billing.Prelude.Int.{ℤ}
use usage_billing.Billing.{ProcessingEvent}
use usage_billing.Postgres.Table.{has, any_of, update, HasUniqueKeys}
use usage_billing.Postgres.Table.Laws.{
  has-append_one, has-delete, has-update, HasUniqueKeys-append, HasUniqueKeys-delete,
  HasUniqueKeys-update, length-update, length-delete, All-delete,
}
use usage_billing.Postgres.Schema.{
  Db, LedgerRow, PendingRow, usage_key, pending_key, ledger_key, pending_checks,
}
use usage_billing.Postgres.Statements.{post_row, post_rows, reactivate}
use usage_billing.Postgres.Store.Retrying.{Updates, Retries}
use usage_billing.Postgres.Batch.{Claim}
use usage_billing.Postgres.Batch.Effects.{Posts, SettlesOne, SettlesEach}
use usage_billing.Postgres.Batch.Reports.{charged_once}
use usage_billing.Postgres.Batch.Commit.{SettlesBatch, claim_ids}
use usage_billing.Postgres.Invariant.{IsConsistent, IsCheckedPending}

has-post_row :
    (now : ℕ) (x id : Bytes) (ledger : List LedgerRow)
    → has ledger_key id (post_row now x ledger) ≡ (has ledger_key id ledger || same x id)
has-post_row now x id ledger = elim (Bool-cases (has ledger_key x ledger)) [
  | inl there ↦
      rw there (ground (arith, same_iff x id, λ (e : x ≡ id). ap (λ k. has ledger_key k ledger) e))
  | inr fresh ↦
      rw fresh (has-append_one ledger_key id ledger (record { event_id = x; processed_at = now }))
]

-- The ledger holds what it held, and the posted events.
pub has-post_rows :
    (now : ℕ) (ids : List Bytes) (id : Bytes) (ledger : List LedgerRow)
    → has ledger_key id (post_rows now ids ledger) ≡ (has ledger_key id ledger || any_of ids id)
unfolding post_rows any_of
has-post_rows now [] id ledger = ground arith
has-post_rows now (x ∷ ids) id ledger =
    rw (has-post_rows now ids id (post_row now x ledger), has-post_row now x id ledger)
      (ground arith)

HasUniqueKeys-post_row :
    (now : ℕ) (x : Bytes) (ledger : List LedgerRow)
    → HasUniqueKeys ledger_key ledger
    → HasUniqueKeys ledger_key (post_row now x ledger)
HasUniqueKeys-post_row now x ledger u = elim (Bool-cases (has ledger_key x ledger)) [
  | inl there ↦ rw there u
  | inr fresh ↦ rw fresh (HasUniqueKeys-append ledger_key ledger _ u fresh)
]

HasUniqueKeys-post_rows :
    (now : ℕ) (ids : List Bytes) (ledger : List LedgerRow)
    → HasUniqueKeys ledger_key ledger
    → HasUniqueKeys ledger_key (post_rows now ids ledger)
unfolding post_rows
HasUniqueKeys-post_rows now [] ledger u = u
HasUniqueKeys-post_rows now (x ∷ ids) ledger u =
    HasUniqueKeys-post_rows now ids (post_row now x ledger) (HasUniqueKeys-post_row now x ledger u)

all-any_of :
    (p : Bytes → Bool) (ids : List Bytes) (id : Bytes)
    → all p ids ≡ true
    → any_of ids id ≡ true
    → p id ≡ true
unfolding any_of
all-any_of p [] id h k = cc
all-any_of p (x ∷ ids) id h k =
    ground (arith, all-any_of p ids id, same_iff x id, λ (e : x ≡ id). ap p e)

waits-post : (p u l a : Bool) → p ≡ (u && not l) → (p && not a) ≡ (u && not (l || a))
waits-post p u l a h = ground arith

pub Posts-IsConsistent :
    {limit : ℕ} (ids : List Bytes) {db db' : Db}
    → IsConsistent limit db
    → Posts ids db db'
    → IsConsistent limit db'
Posts-IsConsistent ids {db} {db'} h (now, known, same_db) = rw same_db (record {
  usage_unique = h.usage_unique;
  pending_unique = HasUniqueKeys-delete pending_key ids db.pending h.pending_unique;
  ledger_unique = HasUniqueKeys-post_rows now ids db.ledger h.ledger_unique;
  usage_checked = h.usage_checked;
  pending_checked = All-delete pending_key IsCheckedPending ids db.pending h.pending_checked;
  waits = λ id.
      rw (has-delete pending_key ids id db.pending, has-post_rows now ids id db.ledger)
        (waits-post _ _ _ _ (h.waits id));
  posted = λ id p. posted_known id (rw (has-post_rows now ids id db.ledger) at p);
  bounded = omega (arith, h.bounded, length-delete pending_key ids db.pending);
})
  where
    posted_known :
        (id : Bytes)
        → (has ledger_key id db.ledger || any_of ids id) ≡ true
        → has usage_key id db.usage ≡ true
    posted_known id p =
        ground (arith, h.posted id, all-any_of (λ x. has usage_key x db.usage) ids id known)

All-all : (rows : List PendingRow) → all pending_checks rows ≡ true → All IsCheckedPending rows
All-all [] h = tt
All-all (r ∷ rows) h = ground (arith, All-all rows)

pub Updates-IsConsistent :
    {limit : ℕ} (id : Bytes) (f : PendingRow → PendingRow)
    (keeps : (r : PendingRow) → pending_key (f r) ≡ pending_key r) {db db' : Db}
    → IsConsistent limit db
    → Updates id f db db'
    → IsConsistent limit db'
Updates-IsConsistent id f keeps {db} {db'} h (checked, same_db) = rw same_db (record {
  usage_unique = h.usage_unique;
  pending_unique = HasUniqueKeys-update pending_key f keeps id db.pending h.pending_unique;
  ledger_unique = h.ledger_unique;
  usage_checked = h.usage_checked;
  pending_checked = All-all (update pending_key id f db.pending) checked;
  waits = λ x. has-update pending_key f keeps id x db.pending ∙ h.waits x;
  posted = h.posted;
  bounded = omega (arith, h.bounded, length-update pending_key f keeps id db.pending);
})

pub Retries-IsConsistent :
    {limit : ℕ} (id : Bytes) (generation : ℤ) (retried : Bool) {db db' : Db}
    → IsConsistent limit db
    → Retries id generation retried db db'
    → IsConsistent limit db'
Retries-IsConsistent id generation retried h (inl (_, (now, p, e, three, current, updates))) =
    Updates-IsConsistent id (reactivate now) (λ r. refl) h updates
Retries-IsConsistent id generation retried h (inr (_, same_db, applied)) = rw same_db h

SettlesOne-IsConsistent :
    {limit : ℕ} (claim : Claim) (n : ℕ) (item : ProcessingEvent) {db db' : Db}
    → IsConsistent limit db
    → SettlesOne claim n item db db'
    → IsConsistent limit db'
SettlesOne-IsConsistent claim n item h (inl (_, _, posts)) =
    Posts-IsConsistent (claim.0 ∷ []) h posts
SettlesOne-IsConsistent claim n item h (inr (code, _, _, (_, updates))) =
    Updates-IsConsistent claim.0 (charged_once code) (λ r. refl) h updates

SettlesEach-IsConsistent :
    {limit : ℕ} (claims : List Claim) (n : ℕ) (items : List ProcessingEvent) {db db' : Db}
    → IsConsistent limit db
    → SettlesEach claims n items db db'
    → IsConsistent limit db'
SettlesEach-IsConsistent [] n items h (_, _, same_db) = rw same_db h
SettlesEach-IsConsistent (claim ∷ claims) n items h (n₁, item, n₂, rest, mid, first, later, _, _) =
    SettlesEach-IsConsistent claims n₂ rest (SettlesOne-IsConsistent claim n₁ item h first) later

pub SettlesBatch-IsConsistent :
    {limit : ℕ} (claims : List Claim) (p : ℕ × List ProcessingEvent) {db db' : Db}
    → IsConsistent limit db
    → SettlesBatch claims p db db'
    → IsConsistent limit db'
SettlesBatch-IsConsistent claims p h (inl (_, _, posts)) =
    Posts-IsConsistent (claim_ids claims) h posts
SettlesBatch-IsConsistent claims p h (inr each) = SettlesEach-IsConsistent claims p.0 p.1 h each
