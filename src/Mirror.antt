-- ===== src/Mirror.antt =====
-- internal/mirror: the local copy of one account's mail.
pub mod Types
pub mod Tx
pub mod Messages
pub mod Placements
pub mod Forget
pub mod Tests
