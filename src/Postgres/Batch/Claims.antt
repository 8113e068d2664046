-- ===== src/Postgres/Batch/Claims.antt =====
-- Which rows a worker claims: due ones that no other session holds.
use usage_billing.Prelude.{
  ℕ, zero, suc, ◌<◌, Bytes, same, same_iff, List, [], ◌∷◌, take, Bool, Bool-cases, true, false,
  ◌||◌, some, ◌≡◌, inl, inr, ap, sym, refl, ◌∙◌, arith,
}
use usage_billing.Postgres.Table.{any_of, find, has, HasUniqueKeys}
use usage_billing.Postgres.Schema.{Db, UsageRow, PendingRow, pending_key}
use usage_billing.Postgres.Session.{Server}
use usage_billing.Postgres.Statements.{insert_due, order_due, eligible, join_usage, select_claim}
use usage_billing.Postgres.Batch.{Claim}
use usage_billing.Postgres.Batch.Commit.{claim_ids}

any_of-take :
    (n : ℕ) (claims : List Claim) (id : Bytes)
    → any_of (claim_ids (take n claims)) id ≡ true
    → any_of (claim_ids claims) id ≡ true
unfolding any_of
any_of-take zero claims id h = cc
any_of-take (suc n) [] id h = h
any_of-take (suc n) (claim ∷ claims) id h = ground (arith, any_of-take n claims id)

any_of-join_usage :
    (usage : List UsageRow) (rows : List PendingRow) (id : Bytes)
    → any_of (claim_ids (join_usage usage rows)) id ≡ true
    → has pending_key id rows ≡ true
unfolding any_of has join_usage
any_of-join_usage usage [] id h = h
any_of-join_usage usage (p ∷ rows) id h = ground (arith, any_of-join_usage usage rows id)

has-insert_due :
    (before : Bytes → Bytes → Bool) (p : PendingRow) (rows : List PendingRow) (id : Bytes)
    → has pending_key id (insert_due before p rows)
      ≡ (same p.event_id id || has pending_key id rows)
unfolding has insert_due
has-insert_due before p [] id = refl
has-insert_due before p (q ∷ rows) id = ground (arith, has-insert_due before p rows id)

has-order_due :
    (before : Bytes → Bytes → Bool) (rows : List PendingRow) (id : Bytes)
    → has pending_key id (order_due before rows) ≡ has pending_key id rows
unfolding has order_due
has-order_due before [] id = refl
has-order_due before (p ∷ rows) id =
    has-insert_due before p (order_due before rows) id
    ∙ ap (λ b. same p.event_id id || b) (has-order_due before rows id)

has-eligible :
    (locked : Bytes → Bool) (rows : List PendingRow) (id : Bytes)
    → has pending_key id rows ≡ false
    → has pending_key id (eligible locked rows) ≡ false
unfolding has eligible
has-eligible locked [] id h = refl
has-eligible locked (p ∷ rows) id h = ground (arith, has-eligible locked rows id)

eligible_row :
    (locked : Bytes → Bool) (rows : List PendingRow) (id : Bytes) (p : PendingRow)
    → HasUniqueKeys pending_key rows
    → find pending_key id rows ≡ some p
    → has pending_key id (eligible locked rows) ≡ true
    → (p.processing_failures < 3) × (locked id ≡ false)
unfolding has eligible find
eligible_row locked [] id p u e h = cc
eligible_row locked (q ∷ rows) id p (fresh, u) e h = elim (Bool-cases (same q.event_id id)) [
  | inr other ↦ eligible_row locked rows id p u (rw other at e) (ground arith)
  | inl here ↦
      let same_key : q.event_id ≡ id = (same_iff q.event_id id).0 here in
      let absent : has pending_key id (eligible locked rows) ≡ false =
        has-eligible locked rows id (rw same_key at fresh) in
      let same_row : q ≡ p = ground arith in
      let due : (q.processing_failures < 3) × (locked q.event_id ≡ false) = ground arith in
      rw (← same_row, ← same_key) due
]

-- A claimed row is due, and no other session holds it.
pub claimed_row :
    (srv : Server) (limit : ℕ) (db : Db) (id : Bytes) (p : PendingRow)
    → HasUniqueKeys pending_key db.pending
    → find pending_key id db.pending ≡ some p
    → any_of (claim_ids (select_claim srv limit db)) id ≡ true
    → (p.processing_failures < 3) × (srv.locked id ≡ false)
unfolding select_claim
claimed_row srv limit db id p u e h = eligible_row srv.locked db.pending id p u e (
    sym (has-order_due srv.before (eligible srv.locked db.pending) id)
    ∙ any_of-join_usage db.usage (order_due srv.before (eligible srv.locked db.pending)) id (
        any_of-take limit
          (join_usage db.usage (order_due srv.before (eligible srv.locked db.pending))) id h))
