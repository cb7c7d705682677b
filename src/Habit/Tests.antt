-- ===== src/Habit/Tests.antt =====
-- Habits at concrete days.
use mailbox_cli.Prelude.{ℕ, ◌≡◌, refl, some, [], ◌∷◌, Text, codes, text_ltb, trim}
use mailbox_cli.Prelude.Cuts.{equal_fold}
use mailbox_cli.Habit.Record.{
  Habit, Day, done_on, is_due, complete, streak, streak_from, parse_days, sort_days, insert_day,
  split_comma, days_of, find_day, day_alias, index_of, index_in, weekdays, sort_texts, insert_text,
  find, found, could_be, is_meant, loosely, answer,
}
use mailbox_cli.Habit.Streaks.{run_of, streak-run_of}

-- A day is written as how many days ago it was.
abbrev ago : ℕ → Text
ago i = i ∷ []

abbrev tea : Habit
tea = record {
  id = codes "t1";
  name = codes "Tea";
  days = [];
  done = ago 2 ∷ ago 1 ∷ ago 4 ∷ [];
  color = [];
  icon = [];
}

abbrev walk : Habit
walk = record tea { id = codes "w1"; name = codes "Teal walk" }

abbrev every_day : ℕ → Day
every_day i = record { weekday = codes "mon"; date = ago i }

two_days : streak_from tea every_day 6 0 0 ≡ 2
unfolding streak_from is_due done_on
two_days = refl

completed : (complete (ago 3) tea).done ≡ ago 1 ∷ ago 2 ∷ ago 3 ∷ ago 4 ∷ []
unfolding complete done_on sort_texts insert_text text_ltb
completed = refl

-- An exact name is not ambiguous, a part of two names is.
named_exactly : find (codes "tea") (walk ∷ tea ∷ []) ≡ found tea
unfolding find is_meant loosely answer equal_fold trim
named_exactly = refl

named_loosely :
    find (codes "ea") (walk ∷ tea ∷ []) ≡ could_be (codes "Teal walk" ∷ codes "Tea" ∷ [])
unfolding find is_meant loosely answer equal_fold trim
named_loosely = refl

mon_and_sun : parse_days (codes "sunday, Mon,7") ≡ some (codes "mon" ∷ codes "sun" ∷ [])
unfolding parse_days sort_days insert_day split_comma days_of find_day day_alias index_of index_in
    weekdays trim
mon_and_sun = refl

streak-run_of_example : streak tea every_day ≡ run_of tea every_day
streak-run_of_example = streak-run_of tea every_day
