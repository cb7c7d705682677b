-- ===== src/MailSync.antt =====
-- internal/sync/mailsync: the mail of a server is brought into the Mirror, and changes are written through.
pub mod Plan
pub mod Decision
pub mod Types
pub mod Place
pub mod Reconciler
pub mod Server
pub mod Writes
pub mod Rebuilt
pub mod Counting
pub mod Changes
pub mod Cycle
pub mod Converges
pub mod Current
pub mod Failures
pub mod Committed
pub mod Writer
pub mod Sweep
pub mod Folders
pub mod Homed
pub mod Apart
pub mod Everywhere
pub mod Moved
pub mod InOrder
pub mod Others
pub mod Relocate
pub mod Listed
pub mod Fixtures
mod Tests
mod SweepTests
