-- ===== src/Postgres/Batch/Due.antt =====
-- internal/postgres/store.go: the rows that the claim of a batch finds, where no other session holds
-- any.
use usage_billing.Prelude.{
  ℕ, zero, suc, ◌+◌, ◌≤◌, min, Bytes, same, same_iff, same_refl, List, [], ◌∷◌, take, length, All,
  all, Bool, Bool-cases, true, false, not, ◌&&◌, Option-cases, some, ltb, ◌≡◌, inl, inr, ap, refl,
  ◌∙◌, arith,
}
use usage_billing.Postgres.Table.{any_of, find, has, delete, HasUniqueKeys}
use usage_billing.Postgres.Schema.{Db, UsageRow, PendingRow, pending_key, usage_key}
use usage_billing.Postgres.Session.{Server}
use usage_billing.Postgres.Statements.{
  insert_due, order_due, due_first, eligible, join_usage, select_claim, count_matches,
}
use usage_billing.Postgres.Totals.{count_where, below_three}
use usage_billing.Postgres.Table.Laws.{has-find, find_of_has}
use usage_billing.Postgres.Invariant.{IsConsistent}
use usage_billing.Postgres.Batch.Claims.{claimed_row}
use usage_billing.Postgres.Batch.Counts.{
  times, times-take, times-join_usage, times-order_due, times-eligible, unique-times,
  count_matches_all, count-delete,
}
use usage_billing.Postgres.Batch.{Claim}
use usage_billing.Postgres.Batch.Commit.{claim_ids}

length-take : {A : Type 0} (n : ℕ) (xs : List A) → length (take n xs) ≡ min n (length xs)
length-take zero xs = omega arith
length-take (suc n) [] = omega arith
length-take (suc n) (x ∷ xs) = omega (arith, length-take n xs)

length-claim_ids : (claims : List Claim) → length (claim_ids claims) ≡ length claims
length-claim_ids [] = refl
length-claim_ids (claim ∷ claims) = ap suc (length-claim_ids claims)

length-insert_due :
    (before : Bytes → Bytes → Bool) (p : PendingRow) (rows : List PendingRow)
    → length (insert_due before p rows) ≡ suc (length rows)
unfolding insert_due
length-insert_due before p [] = refl
length-insert_due before p (q ∷ rows) = ground (arith, length-insert_due before p rows)

length-order_due :
    (before : Bytes → Bytes → Bool) (rows : List PendingRow)
    → length (order_due before rows) ≡ length rows
unfolding order_due
length-order_due before [] = refl
length-order_due before (p ∷ rows) =
    omega (arith, length-insert_due before p (order_due before rows), length-order_due before rows)

length-eligible :
    (locked : Bytes → Bool) (rows : List PendingRow)
    → ((id : Bytes) → locked id ≡ false)
    → length (eligible locked rows) ≡ count_where below_three rows
unfolding eligible count_where
length-eligible locked [] free = refl
length-eligible locked (p ∷ rows) free =
    ground (arith, free p.event_id, length-eligible locked rows free)

module _ (P : PendingRow → Type 0) where
  All-insert_due :
      (before : Bytes → Bytes → Bool) (p : PendingRow) (rows : List PendingRow)
      → P p
      → All P rows
      → All P (insert_due before p rows)
  unfolding insert_due
  All-insert_due before p [] h hs = (h, tt)
  All-insert_due before p (q ∷ rows) h (g, hs) = elim (Bool-cases (due_first before p q)) [
    | inl y ↦ rw (y) (h, (g, hs))
    | inr y ↦ rw (y) (g, All-insert_due before p rows h hs)
  ]

  All-order_due :
      (before : Bytes → Bytes → Bool) (rows : List PendingRow)
      → All P rows
      → All P (order_due before rows)
  unfolding order_due
  All-order_due before [] h = tt
  All-order_due before (p ∷ rows) (h, hs) =
      All-insert_due before p (order_due before rows) h (All-order_due before rows hs)

  All-eligible :
      (locked : Bytes → Bool) (rows : List PendingRow) → All P rows → All P (eligible locked rows)
  unfolding eligible
  All-eligible locked [] h = tt
  All-eligible locked (p ∷ rows) (h, hs) =
      elim (Bool-cases (ltb p.processing_failures 3 && not (locked p.event_id))) [
        | inl y ↦ rw (y) (h, All-eligible locked rows hs)
        | inr y ↦ rw (y) (All-eligible locked rows hs)
      ]

-- A row whose event is stored, which the foreign key promises.
abbrev pub IsStored : List UsageRow → PendingRow → Type 0
IsStored usage p = has usage_key p.event_id usage ≡ true

abbrev IsPresent : List PendingRow → Bytes → Type 0
IsPresent rows id = has pending_key id rows ≡ true

module _ {A : Type 0} {P Q : A → Type 0} (f : (a : A) → P a → Q a) where
  All-implies : (xs : List A) → All P xs → All Q xs
  All-implies [] h = tt
  All-implies (x ∷ xs) (h, hs) = (f x h, All-implies xs hs)

-- Each row is the one that its key finds.
finds_itself :
    (rows : List PendingRow)
    → HasUniqueKeys pending_key rows
    → All (λ p. find pending_key p.event_id rows ≡ some p) rows
unfolding find
finds_itself [] u = tt
finds_itself (p ∷ rows) (fresh, u) =
    (rw (same_refl p.event_id) refl, All-implies past rows (finds_itself rows u))
  where
    past :
        (q : PendingRow)
        → find pending_key q.event_id rows ≡ some q
        → find pending_key q.event_id (p ∷ rows) ≡ some q
    past q h = elim (Bool-cases (same p.event_id q.event_id)) [
      | inl e ↦
          let k : p.event_id ≡ q.event_id = (same_iff p.event_id q.event_id).0 e in
          let there : has pending_key q.event_id rows ≡ true =
            has-find pending_key q.event_id rows q h in
          absurd (ground (arith, rw (k) at fresh))
      | inr e ↦ rw (e) h
    ]

length-join_usage :
    (usage : List UsageRow) (rows : List PendingRow)
    → All (IsStored usage) rows
    → length (join_usage usage rows) ≡ length rows
unfolding join_usage
length-join_usage usage [] h = refl
length-join_usage usage (p ∷ rows) (h, hs) =
    let (u, e) = find_of_has usage_key p.event_id usage h in
    rw (length, e) (ap suc (length-join_usage usage rows hs))

All-join_usage :
    (Q : Bytes → Type 0) (usage : List UsageRow) (rows : List PendingRow)
    → All (λ p. Q p.event_id) rows
    → All Q (claim_ids (join_usage usage rows))
unfolding join_usage
All-join_usage Q usage [] h = tt
All-join_usage Q usage (p ∷ rows) (h, hs) = elim (Option-cases (find usage_key p.event_id usage)) [
  | inl e ↦ rw (All, e) (All-join_usage Q usage rows hs)
  | inr (u, e) ↦ rw (All, e) (h, All-join_usage Q usage rows hs)
]

All-take :
    (Q : Bytes → Type 0) (n : ℕ) (claims : List Claim)
    → All Q (claim_ids claims)
    → All Q (claim_ids (take n claims))
All-take Q zero claims h = tt
All-take Q (suc n) [] h = tt
All-take Q (suc n) (claim ∷ claims) (h, hs) = (h, All-take Q n claims hs)

all-All : (p : Bytes → Bool) (ids : List Bytes) → All (λ id. p id ≡ true) ids → all p ids ≡ true
all-All p [] h = refl
all-All p (id ∷ ids) (h, hs) = rw (h) (all-All p ids hs)

-- The claim takes the rows that are due, as many as there are up to the limit; each is stored and
-- removed once, and what stays due are the others.
pub record IsClaimed (srv : Server) (limit : ℕ) (db : Db) : Type 0 where
  pub size : length (select_claim srv limit db) ≡ min limit (count_where below_three db.pending)
  pub stored : all (λ id. has usage_key id db.usage) (claim_ids (select_claim srv limit db)) ≡ true
  pub removed :
      count_matches (claim_ids (select_claim srv limit db)) db.pending
      ≡ length (select_claim srv limit db)
  pub left :
      count_where below_three
          (delete pending_key (claim_ids (select_claim srv limit db)) db.pending)
        + length (select_claim srv limit db)
      ≡ count_where below_three db.pending

module _ (srv : Server) (q limit : ℕ) (db : Db) (h : IsConsistent q db) where
  self : All (λ p. find pending_key p.event_id db.pending ≡ some p) db.pending
  self = finds_itself db.pending h.pending_unique

  all-IsPresent : All (λ p. IsPresent db.pending p.event_id) db.pending
  all-IsPresent =
      All-implies (λ p e. has-find pending_key p.event_id db.pending p e) db.pending self

  all-IsStored : All (IsStored db.usage) db.pending
  all-IsStored = All-implies (λ p e. ground (arith, h.waits p.event_id, e)) db.pending all-IsPresent

  due : List PendingRow
  due = order_due srv.before (eligible srv.locked db.pending)

  through : (P : PendingRow → Type 0) → All P db.pending → All P due
  unfolding due
  through P hs =
      All-order_due P srv.before (eligible srv.locked db.pending)
        (All-eligible P srv.locked db.pending hs)

  claims-All :
      (Q : Bytes → Type 0)
      → All (λ p. Q p.event_id) db.pending
      → All Q (claim_ids (select_claim srv limit db))
  unfolding select_claim due
  claims-All Q hs =
      All-take Q limit (join_usage db.usage due)
        (All-join_usage Q db.usage due (through (λ p. Q p.event_id) hs))

  claims_once : (id : Bytes) → times id (claim_ids (select_claim srv limit db)) ≤ 1
  unfolding select_claim due
  claims_once id = omega (
    arith,
    times-take limit (join_usage db.usage due) id,
    times-join_usage db.usage due id,
    times-order_due srv.before (eligible srv.locked db.pending) id,
    times-eligible srv.locked db.pending id,
    unique-times db.pending id h.pending_unique,
  )

  taken_due :
      (r : PendingRow)
      → find pending_key r.event_id db.pending ≡ some r
      → any_of (claim_ids (select_claim srv limit db)) r.event_id ≡ true
      → below_three r ≡ true
  taken_due r e taken =
      let (low, _) = claimed_row srv limit db r.event_id r h.pending_unique e taken in ground arith

  pub select_claim-IsClaimed : ((id : Bytes) → srv.locked id ≡ false) → IsClaimed srv limit db
  unfolding select_claim due
  select_claim-IsClaimed free =
      let removed =
        count_matches_all (claim_ids (select_claim srv limit db)) db.pending h.pending_unique
          claims_once (claims-All (IsPresent db.pending) all-IsPresent) in
      record {
        size =
            length-take limit (join_usage db.usage due)
            ∙ ap (min limit) (
                length-join_usage db.usage due (through (IsStored db.usage) all-IsStored)
                ∙ length-order_due srv.before (eligible srv.locked db.pending)
                ∙ length-eligible srv.locked db.pending free);
        stored =
            all-All (λ id. has usage_key id db.usage) _
              (claims-All (λ id. has usage_key id db.usage ≡ true) all-IsStored);
        removed = removed ∙ length-claim_ids (select_claim srv limit db);
        left = omega (
          arith,
          removed,
          length-claim_ids (select_claim srv limit db),
          count-delete below_three (claim_ids (select_claim srv limit db)) db.pending
              (All-implies taken_due db.pending self),
        );
      }
