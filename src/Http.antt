-- ===== src/Http.antt =====
-- internal/httpapi/httpapi.go: routes, requests and their decoding, and the handler.
mod Routing
mod Decoding
pub mod Metrics
pub mod Members
pub mod Assignments
pub mod Inputs
pub mod Handler
pub mod Scrape
pub mod Guards
pub mod Generations
pub mod Bounds
pub mod Paths
pub mod Tests
unfoldable pub use Routing.*
unfoldable pub use Decoding.*
unfoldable pub use Metrics.*
unfoldable pub use Handler.*
