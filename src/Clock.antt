-- ===== src/Clock.antt =====
-- The part of Go's time package that the program uses: wall-clock times, their calendar and text.
pub mod Calendar
pub mod Layout
pub mod Printed
pub mod Months
pub mod Ordered
pub mod Days
