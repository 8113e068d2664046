-- ===== src/Postgres/Batch/Counts.antt =====
-- internal/postgres/store.go: how many rows a batch claims, posts and removes.
use usage_billing.Prelude.{
  ℕ, zero, suc, ◌+◌, ◌≤◌, Bytes, same, same_iff, same_refl, List, [], ◌∷◌, map, take, length, All,
  Bool, Bool-cases, true, false, if◌then◌else◌, ◌≡◌, inl, inr, refl, arith,
}
use usage_billing.Postgres.Table.{any_of, has, delete, HasUniqueKeys}
use usage_billing.Postgres.Schema.{UsageRow, PendingRow, pending_key}
use usage_billing.Postgres.Statements.{insert_due, order_due, eligible, join_usage, count_matches}
use usage_billing.Postgres.Totals.{count_where}
use usage_billing.Postgres.Batch.{Claim}
use usage_billing.Postgres.Batch.Commit.{claim_ids}

abbrev pub times : Bytes → List Bytes → ℕ
times id [] = 0
times id (x ∷ xs) = (if same x id then 1 else 0) + times id xs

abbrev keys : List PendingRow → List Bytes
keys rows = map pending_key rows

same_comm : (s t : Bytes) → same s t ≡ same t s
unfolding same
same_comm [] [] = refl
same_comm [] (b ∷ t) = refl
same_comm (a ∷ s) [] = refl
same_comm (a ∷ s) (b ∷ t) = ground (arith, same_comm s t)

pub times-take :
    (n : ℕ) (claims : List Claim) (id : Bytes)
    → times id (claim_ids (take n claims)) ≤ times id (claim_ids claims)
times-take zero claims id = omega arith
times-take (suc n) [] id = omega arith
times-take (suc n) (claim ∷ claims) id = omega (arith, times-take n claims id)

pub times-join_usage :
    (usage : List UsageRow) (rows : List PendingRow) (id : Bytes)
    → times id (claim_ids (join_usage usage rows)) ≤ times id (keys rows)
unfolding join_usage
times-join_usage usage [] id = omega arith
times-join_usage usage (p ∷ rows) id = ground (arith, times-join_usage usage rows id)

times-insert_due :
    (before : Bytes → Bytes → Bool) (p : PendingRow) (rows : List PendingRow) (id : Bytes)
    → times id (keys (insert_due before p rows)) ≡ times id (keys (p ∷ rows))
unfolding insert_due
times-insert_due before p [] id = refl
times-insert_due before p (q ∷ rows) id = ground (arith, times-insert_due before p rows id)

pub times-order_due :
    (before : Bytes → Bytes → Bool) (rows : List PendingRow) (id : Bytes)
    → times id (keys (order_due before rows)) ≡ times id (keys rows)
unfolding order_due
times-order_due before [] id = refl
times-order_due before (p ∷ rows) id =
    omega
      (arith, times-insert_due before p (order_due before rows) id, times-order_due before rows id)

pub times-eligible :
    (locked : Bytes → Bool) (rows : List PendingRow) (id : Bytes)
    → times id (keys (eligible locked rows)) ≤ times id (keys rows)
unfolding eligible
times-eligible locked [] id = omega arith
times-eligible locked (p ∷ rows) id = ground (arith, times-eligible locked rows id)

absent-times :
    (rows : List PendingRow) (id : Bytes)
    → has pending_key id rows ≡ false
    → times id (keys rows) ≡ 0
unfolding has
absent-times [] id h = refl
absent-times (p ∷ rows) id h = ground (arith, absent-times rows id)

present-times :
    (rows : List PendingRow) (id : Bytes)
    → has pending_key id rows ≡ true
    → 1 ≤ times id (keys rows)
unfolding has
present-times [] id h = cc
present-times (p ∷ rows) id h = ground (arith, present-times rows id)

pub unique-times :
    (rows : List PendingRow) (id : Bytes)
    → HasUniqueKeys pending_key rows
    → times id (keys rows) ≤ 1
unique-times [] id u = omega arith
unique-times (p ∷ rows) id (fresh, u) = elim (Bool-cases (same p.event_id id)) [
  | inl e ↦
      let k : p.event_id ≡ id = (same_iff p.event_id id).0 e in
      ground (arith, absent-times rows id (rw (k) at fresh))
  | inr e ↦ ground (arith, unique-times rows id u)
]

any_of-times : (ids : List Bytes) (id : Bytes) → times id ids ≡ 0 → any_of ids id ≡ false
unfolding any_of
any_of-times [] id h = refl
any_of-times (x ∷ ids) id h = ground (arith, any_of-times ids id)

count_matches-cons :
    (id : Bytes) (ids : List Bytes) (rows : List PendingRow)
    → any_of ids id ≡ false
    → count_matches (id ∷ ids) rows ≡ times id (keys rows) + count_matches ids rows
unfolding count_matches any_of
count_matches-cons id ids [] h = refl
count_matches-cons id ids (p ∷ rows) h = elim (Bool-cases (same id p.event_id)) [
  | inl e ↦
      let k : id ≡ p.event_id = (same_iff id p.event_id).0 e in
      let other : any_of ids p.event_id ≡ false = rw (← k) h in
      ground (arith, e, other, same_comm id p.event_id, count_matches-cons id ids rows h)
  | inr e ↦ ground (arith, e, same_comm id p.event_id, count_matches-cons id ids rows h)
]

count_none : (rows : List PendingRow) → count_matches [] rows ≡ 0
unfolding count_matches any_of
count_none [] = refl
count_none (p ∷ rows) = count_none rows

-- Each identifier of a list without repetitions removes one row.
pub count_matches_all :
    (ids : List Bytes) (rows : List PendingRow)
    → HasUniqueKeys pending_key rows
    → ((id : Bytes) → times id ids ≤ 1)
    → All (λ id. has pending_key id rows ≡ true) ids
    → count_matches ids rows ≡ length ids
count_matches_all [] rows u once here = count_none rows
count_matches_all (id ∷ ids) rows u once (p, here) =
    let fresh : times id ids ≡ 0 = ground (arith, once id, same_refl id) in
    let rest = count_matches_all ids rows u (λ x. ground (arith, once x)) here in
    omega (
      arith,
      count_matches-cons id ids rows (any_of-times ids id fresh),
      rest,
      unique-times rows id u,
      present-times rows id p,
    )

-- What is deleted and what is left, where only rows of a kind are deleted.
pub count-delete :
    (p : PendingRow → Bool) (ids : List Bytes) (rows : List PendingRow)
    → All (λ r. any_of ids r.event_id ≡ true → p r ≡ true) rows
    → count_where p (delete pending_key ids rows) + count_matches ids rows ≡ count_where p rows
unfolding count_where delete count_matches
count-delete p ids [] h = refl
count-delete p ids (r ∷ rows) (kind, h) =
    let rest = count-delete p ids rows h in
    elim (Bool-cases (any_of ids r.event_id)) [
      | inl y ↦ ground (arith, y, kind y, rest)
      | inr y ↦ ground (arith, y, rest)
    ]
