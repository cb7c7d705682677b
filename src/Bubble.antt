-- ===== src/Bubble.antt =====
-- internal/bubble, internal/mirror/bubble.go, internal/daemon/bubble.go and when.go: threads that are
-- set aside until a time.
pub mod Keyword
pub mod RoundTrip
pub mod InOrder
pub mod ReadTimes
pub mod When
pub mod Weekdays
pub mod Ahead
pub mod Due
pub mod DueIn
pub mod Return
pub mod Views
pub mod Kept
pub mod Away
pub mod Home
mod Tests
