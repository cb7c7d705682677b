-- ===== src/DavSync.antt =====
-- internal/sync/davsync and internal/mirror/dav.go: calendars, task lists and address books.
pub mod Types
pub mod Store
pub mod Reconciler
pub mod Held
pub mod Server
pub mod Filled
pub mod Converges
pub mod Discover
pub mod Pruned
pub mod Left
pub mod Kept
pub mod Kinds
pub mod Urls
pub mod Writer
pub mod Rooted
pub mod Unsent
pub mod Written
mod Fixtures
mod Tests
mod DiscoverTests
