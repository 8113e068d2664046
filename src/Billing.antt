-- ===== src/Billing.antt =====
-- internal/billing: the usage pricing contracts (types.go) and the application service (service.go).
mod Types
pub mod Service
pub mod Identifiers
pub mod Pricing
mod Tests
unfoldable pub use Types.*
unfoldable pub use Service.*
