-- ===== src/Postgres/Totals/Partition.antt =====
-- The counts of a summary add up.
use usage_billing.Prelude.{
  ℕ, ◌+◌, Bytes, same_refl, Bool, Bool-cases, true, false, ◌&&◌, List, [], ◌∷◌, All, ◌≡◌, ◌⊎◌, inl,
  inr, refl, ap, ◌∙◌, arith,
}
use usage_billing.Postgres.Table.{has}
use usage_billing.Postgres.Table.Laws.{All-find, find_of_has, find-none}
use usage_billing.Postgres.Schema.{
  UsageRow, PendingRow, Db, usage_key, pending_key, ledger_key, pending_checks,
}
use usage_billing.Postgres.Invariant.{IsConsistent, IsCheckedPending}
use usage_billing.Postgres.Totals.{
  count_where, below_three, at_three, row_with, is_posted, is_queued, is_of, totals_of,
}

-- Each row passes exactly one of three tests, if it passes a fourth.
abbrev IsSplit : {A : Type 0} → (A → Bool) → (A → Bool) → (A → Bool) → A → Type 0
IsSplit p q r x =
    ((p x ≡ true) × (q x ≡ false) × (r x ≡ false))
    ⊎ (((p x ≡ false) × (q x ≡ true) × (r x ≡ false))
        ⊎ ((p x ≡ false) × (q x ≡ false) × (r x ≡ true)))

count-split :
    {A : Type 0} (t p q r : A → Bool) (xs : List A)
    → All (IsSplit p q r) xs
    → count_where (λ x. t x && p x) xs
        + count_where (λ x. t x && q x) xs
        + count_where (λ x. t x && r x) xs
      ≡ count_where t xs
unfolding count_where
count-split t p q r [] h = refl
count-split t p q r (x ∷ xs) (s, h) = ground (arith, count-split t p q r xs h)

failures_cases :
    (p : PendingRow)
    → IsCheckedPending p
    → ((below_three p ≡ true) × (at_three p ≡ false))
      ⊎ ((below_three p ≡ false) × (at_three p ≡ true))
unfolding pending_checks
failures_cases p h = ground arith

row-IsSplit :
    {limit : ℕ} (db : Db) (u : UsageRow)
    → IsConsistent limit db
    → has usage_key u.event_id db.usage ≡ true
    → IsSplit (is_queued below_three db) (is_posted db) (is_queued at_three db) u
row-IsSplit db u c there = elim (Bool-cases (has ledger_key u.event_id db.ledger)) [
  | inl posted ↦
      let gone =
        find-none pending_key u.event_id db.pending
          (c.waits u.event_id ∙ rw (there, posted) refl) in
      inr (inl (ap (row_with below_three) gone, posted, ap (row_with at_three) gone))
  | inr unposted ↦
      let (p, e) =
        find_of_has pending_key u.event_id db.pending
          (c.waits u.event_id ∙ rw (there, unposted) refl) in
      let checked =
        All-find pending_key IsCheckedPending u.event_id db.pending p c.pending_checked e in
      elim (failures_cases p checked) [
        | inl (low, other) ↦
            inl (ap (row_with below_three) e ∙ low, unposted, ap (row_with at_three) e ∙ other)
        | inr (other, three) ↦
            inr (
              inr (ap (row_with below_three) e ∙ other, unposted, ap (row_with at_three) e ∙ three))
      ]
]

rows-IsSplit :
    {limit : ℕ} (db : Db) (rows : List UsageRow)
    → IsConsistent limit db
    → ((id : Bytes) → has usage_key id rows ≡ true → has usage_key id db.usage ≡ true)
    → All (IsSplit (is_queued below_three db) (is_posted db) (is_queued at_three db)) rows
unfolding has
rows-IsSplit db [] c sub = tt
rows-IsSplit db (u ∷ rows) c sub = (
  row-IsSplit db u c (sub u.event_id (rw (same_refl u.event_id) refl)),
  rows-IsSplit db rows c (λ id h. sub id (rw h ground arith)),
)

-- On consistent tables every accepted event of a customer is counted once by the customer's summary:
-- as pending, as processed or as failed.
pub totals-split :
    (limit : ℕ) (customer : Bytes) (db : Db)
    → IsConsistent limit db
    → let s = totals_of customer db in
      s.pending + s.processed + s.failed ≡ count_where (is_of customer) db.usage
totals-split limit customer db c =
    count-split (is_of customer) (is_queued below_three db) (is_posted db) (is_queued at_three db)
      db.usage (rows-IsSplit db db.usage c (λ id h. h))
