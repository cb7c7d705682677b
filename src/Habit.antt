-- ===== src/Habit.antt =====
-- internal/habit: the record of habits.
pub mod Record
pub mod Streaks
pub mod Days
pub mod Week
mod Tests
