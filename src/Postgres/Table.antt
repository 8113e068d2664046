-- ===== src/Postgres/Table.antt =====
-- Tables with a text key, and their laws: `WHERE event_id = $1`, `WHERE event_id = ANY($1)`.
pub mod Laws
use usage_billing.Prelude.{
  ℕ, ◌+◌, Bytes, same, same_iff, Bool, true, false, not, ◌&&◌, ◌||◌, Option, none, some, List, [],
  ◌∷◌, ◌++◌, if◌then◌else◌, ◌≡◌, refl, arith,
}

-- `event_id = ANY($1)`
unfoldable pub any_of : List Bytes → Bytes → Bool
any_of [] id = false
any_of (x ∷ xs) id = same x id || any_of xs id

module _ {Row : Type 0} (key : Row → Bytes) where
  unfoldable pub find : Bytes → List Row → Option Row
  find id [] = none
  find id (r ∷ rows) = if same (key r) id then some r else find id rows

  unfoldable pub has : Bytes → List Row → Bool
  has id [] = false
  has id (r ∷ rows) = same (key r) id || has id rows

  unfoldable pub update : Bytes → (Row → Row) → List Row → List Row
  update id f [] = []
  update id f (r ∷ rows) = (if same (key r) id then f r else r) ∷ update id f rows

  unfoldable pub delete : List Bytes → List Row → List Row
  delete ids [] = []
  delete ids (r ∷ rows) =
      let rest = delete ids rows in if any_of ids (key r) then rest else r ∷ rest

  -- The key is a primary key: no two rows share it.
  abbrev pub HasUniqueKeys : List Row → Type 0
  HasUniqueKeys [] = Unit
  HasUniqueKeys (r ∷ rows) = (has (key r) rows ≡ false) × HasUniqueKeys rows
