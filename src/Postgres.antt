-- ===== src/Postgres.antt =====
-- internal/postgres/store.go over the tables of migrations/*.up.sql. The SQL texts of store.go are
-- functions on the tables; what the server and the driver may add to a call (a failed statement, the
-- clock, rows that other sessions hold, a lost commit) is the record `Server`, which every
-- operation takes.
mod Table
mod Schema
mod Session
mod Statements
pub mod Store
mod Batch
mod Totals
pub mod Invariant
pub mod System
mod Tests
unfoldable pub use Table.*
unfoldable pub use Schema.*
unfoldable pub use Session.*
unfoldable pub use Statements.*
unfoldable pub use Store.*
unfoldable pub use Totals.*
unfoldable pub use Batch.*
