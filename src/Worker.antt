-- ===== src/Worker.antt =====
-- internal/worker/worker.go: the polling loop, its statistics and what it logs.
pub mod Stats
mod Loop
mod Logging
pub mod Backoff
pub mod Counters
pub mod Redaction
mod Tests
unfoldable pub use Stats.*
unfoldable pub use Loop.*
unfoldable pub use Logging.*
