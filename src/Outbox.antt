-- ===== src/Outbox.antt =====
-- internal/outbox: the durable send queue (outbox.go) and the courier that empties it (courier.go).
pub mod Types
pub mod Store
pub mod Queue
pub mod Rows
pub mod Runs
pub mod Recovery
pub mod RoundTrip
pub mod OneRow
pub mod Delivery
pub mod Sending
pub mod Unheard
pub mod Unique
pub mod Draining
pub mod Handover
pub mod Once
pub mod Settled
pub mod History
pub mod Courier
mod Tests
mod SendingTests
