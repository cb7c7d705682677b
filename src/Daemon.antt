-- ===== src/Daemon.antt =====
-- internal/daemon: the ids by which a caller names a message.
pub mod Ids
pub mod Boxes
pub mod RoundTrip
pub mod Resolve
pub mod Taken
mod Tests
