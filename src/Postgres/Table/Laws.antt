-- ===== src/Postgres/Table/Laws.antt =====
-- How inserting, updating and deleting rows changes what a table holds.
use usage_billing.Prelude.{
  ◌≤◌, Bytes, same, same_iff, inl, inr, Bool-cases, true, false, not, ◌&&◌, ◌||◌, none, some, List,
  [], ◌∷◌, ◌++◌, length, All, ◌≡◌, refl, ap, arith,
}
use usage_billing.Postgres.Table.{any_of, find, has, update, delete, HasUniqueKeys}

module _ {Row : Type 0} (key : Row → Bytes) where
  pub has-append_one :
      (id : Bytes) (rows : List Row) (r : Row)
      → has key id (rows ++ r ∷ []) ≡ (has key id rows || same (key r) id)
  unfolding has
  has-append_one id [] r = ground arith
  has-append_one id (x ∷ rows) r = ground (arith, has-append_one id rows r)

  pub has-delete :
      (ids : List Bytes) (id : Bytes) (rows : List Row)
      → has key id (delete key ids rows) ≡ (has key id rows && not (any_of ids id))
  unfolding has delete
  has-delete ids id [] = refl
  has-delete ids id (r ∷ rows) = ground (arith, has-delete ids id rows, same_iff (key r) id)

  pub has-find :
      (id : Bytes) (rows : List Row) (r : Row) → find key id rows ≡ some r → has key id rows ≡ true
  unfolding has find
  has-find id [] r h = cc
  has-find id (x ∷ rows) r h = ground (arith, has-find id rows r)

  pub find_key : (id : Bytes) (rows : List Row) (r : Row) → find key id rows ≡ some r → key r ≡ id
  unfolding find
  find_key id [] r h = cc
  find_key id (x ∷ rows) r h = ground (arith, find_key id rows r, same_iff (key x) id)

  pub find_of_has :
      (id : Bytes) (rows : List Row)
      → has key id rows ≡ true
      → (r : Row) × (find key id rows ≡ some r)
  unfolding has find
  find_of_has id [] h = cc
  find_of_has id (x ∷ rows) h = elim (Bool-cases (same (key x) id)) [
    | inl here ↦ rw here (x, refl)
    | inr later ↦ rw later (find_of_has id rows (rw later at h))
  ]

  pub find-none : (id : Bytes) (rows : List Row) → has key id rows ≡ false → find key id rows ≡ none
  unfolding has find
  find-none id [] h = refl
  find-none id (x ∷ rows) h = ground (arith, find-none id rows)

  pub find-append :
      (id : Bytes) (rows more : List Row) (r : Row)
      → find key id rows ≡ some r
      → find key id (rows ++ more) ≡ some r
  unfolding find
  find-append id [] more r h = cc
  find-append id (x ∷ rows) more r h = ground (arith, find-append id rows more r)

  pub find-append_new :
      (id : Bytes) (rows : List Row) (r : Row)
      → has key id rows ≡ false
      → key r ≡ id
      → find key id (rows ++ r ∷ []) ≡ some r
  unfolding find has
  find-append_new id [] r h e = ground (arith, same_iff (key r) id)
  find-append_new id (x ∷ rows) r h e = ground (arith, find-append_new id rows r)

  pub find-delete_ne :
      (ids : List Bytes) (id : Bytes) (rows : List Row)
      → any_of ids id ≡ false
      → find key id (delete key ids rows) ≡ find key id rows
  unfolding find delete
  find-delete_ne ids id [] h = refl
  find-delete_ne ids id (r ∷ rows) h = elim (Bool-cases (same (key r) id)) [
    | inl here ↦
        let e : key r ≡ id = (same_iff (key r) id).0 here in
        let kept : any_of ids (key r) ≡ false = rw e h in rw (kept, here) refl
    | inr other ↦ ground (arith, find-delete_ne ids id rows h)
  ]

  pub HasUniqueKeys-append :
      (rows : List Row) (r : Row)
      → HasUniqueKeys key rows
      → has key (key r) rows ≡ false
      → HasUniqueKeys key (rows ++ r ∷ [])
  unfolding has
  HasUniqueKeys-append [] r u h = (refl, tt)
  HasUniqueKeys-append (x ∷ rows) r (p, u) h = ground (
    arith,
    has-append_one (key x) rows r,
    HasUniqueKeys-append rows r u,
    same_iff (key x) (key r),
    same_iff (key r) (key x),
  )

  pub HasUniqueKeys-delete :
      (ids : List Bytes) (rows : List Row)
      → HasUniqueKeys key rows
      → HasUniqueKeys key (delete key ids rows)
  unfolding delete
  HasUniqueKeys-delete ids [] u = tt
  HasUniqueKeys-delete ids (r ∷ rows) (p, u) =
      ground (arith, has-delete ids (key r) rows, HasUniqueKeys-delete ids rows u)

  module _ (f : Row → Row) (keeps : (r : Row) → key (f r) ≡ key r) (k : Bytes) where
    pub has-update :
        (id : Bytes) (rows : List Row) → has key id (update key k f rows) ≡ has key id rows
    unfolding has update
    has-update id [] = refl
    has-update id (r ∷ rows) = ground (arith, has-update id rows, keeps r)

    pub find-update_self :
        (rows : List Row) (r : Row)
        → find key k rows ≡ some r
        → find key k (update key k f rows) ≡ some (f r)
    unfolding find update
    find-update_self [] r h = cc
    find-update_self (x ∷ rows) r h = elim (Bool-cases (same (key x) k)) [
      | inl here ↦ let e : x ≡ r = ground arith in rw (here, keeps x, here) (ap (λ y. some (f y)) e)
      | inr other ↦ rw (other, other) (find-update_self rows r (rw other at h))
    ]

    pub find-update_ne :
        (id : Bytes) (rows : List Row)
        → same k id ≡ false
        → find key id (update key k f rows) ≡ find key id rows
    unfolding find update
    find-update_ne id [] h = refl
    find-update_ne id (r ∷ rows) h = elim (Bool-cases (same (key r) k)) [
      | inl here ↦
          let e : key r ≡ k = (same_iff (key r) k).0 here in
          let apart : same (key r) id ≡ false = rw e h in
          rw (here, keeps r, apart) (find-update_ne id rows h)
      | inr other ↦ ground (arith, find-update_ne id rows h)
    ]

    pub HasUniqueKeys-update :
        (rows : List Row) → HasUniqueKeys key rows → HasUniqueKeys key (update key k f rows)
    unfolding update
    HasUniqueKeys-update [] u = tt
    HasUniqueKeys-update (r ∷ rows) (p, u) =
        ground (arith, has-update (key r) rows, keeps r, HasUniqueKeys-update rows u)

    pub length-update : (rows : List Row) → length (update key k f rows) ≡ length rows
    unfolding update
    length-update [] = refl
    length-update (r ∷ rows) = omega (arith, length-update rows)

  pub length-delete :
      (ids : List Bytes) (rows : List Row) → length (delete key ids rows) ≤ length rows
  unfolding delete
  length-delete ids [] = omega arith
  length-delete ids (r ∷ rows) = ground (arith, length-delete ids rows)

module _ {Row : Type 0} (key : Row → Bytes) (P : Row → Type 0) where
  pub All-delete : (ids : List Bytes) (rows : List Row) → All P rows → All P (delete key ids rows)
  unfolding delete
  All-delete ids [] h = tt
  All-delete ids (r ∷ rows) (p, h) = ground (arith, All-delete ids rows h)

  pub All-find :
      (id : Bytes) (rows : List Row) (r : Row) → All P rows → find key id rows ≡ some r → P r
  unfolding find
  All-find id [] r h e = cc
  All-find id (x ∷ rows) r (p, h) e = elim (Bool-cases (same (key x) id)) [
    | inl here ↦ let q : x ≡ r = ground arith in rw (← q) p
    | inr later ↦ All-find id rows r h (rw later at e)
  ]
