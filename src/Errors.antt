-- ===== src/Errors.antt =====
-- Go's error values, as far as the code tells them apart: the sentinel errors of
-- internal/billing/types.go, those of the standard library and the driver that the code asks for by
-- `errors.Is`, a PostgreSQL error with its SQLSTATE, and the errors that wrap or join others.
use usage_billing.Prelude.{ℕ, String, Bytes, Bool, ◌||◌, Option, none, some, ◌==◌}

pub data Sentinel : Type 0 where
  invalid conflict not_found queue_full retry_conflict : Sentinel
  no_rows tx_closed canceled deadline_exceeded server_closed : Sentinel

pub data Error : Type 0 where
  sentinel : Sentinel → Error
  -- `*pgconn.PgError`, by its code
  pg : Bytes → Error
  -- `errors.New`, and errors that the code never looks into
  message : String → Error
  -- `fmt.Errorf("…: %w", err)`
  wrap : String → Error → Error
  -- `errors.Join(a, b)`
  join : Error → Error → Error

abbrev tag : Sentinel → ℕ
tag invalid = 0
tag conflict = 1
tag not_found = 2
tag queue_full = 3
tag retry_conflict = 4
tag no_rows = 5
tag tx_closed = 6
tag canceled = 7
tag deadline_exceeded = 8
tag server_closed = 9

-- `errors.Is(err, target)`
unfoldable pub is : Error → Sentinel → Bool
is (sentinel s) t = tag s == tag t
is (pg code) t = Bool.false
is (message text) t = Bool.false
is (wrap text e) t = is e t
is (join a b) t = is a t || is b t

-- `errors.AsType[*pgconn.PgError](err)`: the first in the tree, depth first
unfoldable pub as_pg_error : Error → Option Bytes
as_pg_error (sentinel s) = none
as_pg_error (pg code) = some code
as_pg_error (message text) = none
as_pg_error (wrap text e) = as_pg_error e
as_pg_error (join a b) = elim (as_pg_error a) [ some c ↦ some c | none ↦ as_pg_error b ]

-- A pair `(value, err)` of which one is set.
pub data Result {ℓ} (A : Type ℓ) : Type ℓ where
  ok : A → Result A
  err : Error → Result A
