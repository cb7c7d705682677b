-- ===== src/Routing.antt =====
-- internal/routing: which sender's mail goes where.
pub mod Destinations
pub mod Lists
pub mod Decided
pub mod Rules
pub mod Keys
pub mod Kept
pub mod Senders
pub mod Delivered
pub mod Enforced
pub mod ReadBack
mod Tests
mod RuleTests
