-- ===== src/Clock/Calendar.antt =====
-- The dates of Go's time package: the days of a month, the day after a day, and the day of the week.
use mailbox_cli.Prelude.{
  ℕ, zero, suc, ◌+◌, ◌-◌, ◌*◌, ◌/◌, ◌%◌, Bool, ◌&&◌, ◌||◌, not, ltb, leb, ◌==◌, if◌then◌else◌, ◌≡◌,
  refl,
}

-- A local time to the second, as the clock on the wall shows it.
pub record Time : Type 0 where
  pub year : ℕ
  pub month : ℕ
  pub day : ℕ
  pub hour : ℕ
  pub minute : ℕ
  pub second : ℕ

unfoldable pub is_leap : ℕ → Bool
is_leap y = y % 4 == 0 && (not (y % 100 == 0) || y % 400 == 0)

abbrev pub month_length : Bool → ℕ → ℕ
month_length leap m =
    if m == 2
    then if leap then 29 else 28
    else if m == 4 || m == 6 || m == 9 || m == 11
    then 30
    else 31

unfoldable pub days_in : ℕ → ℕ → ℕ
unfolding is_leap
days_in y m = month_length (is_leap y) m

-- What time.Date leaves as it is.
abbrev pub in_range : Time → Bool
in_range t =
    leb 1 t.month
    && leb t.month 12
    && leb 1 t.day
    && leb t.day (days_in t.year t.month)
    && ltb t.hour 24
    && ltb t.minute 60
    && ltb t.second 60

-- The days before a month of a year.
abbrev pub month_start : Bool → ℕ → ℕ
month_start leap m =
    (if leap && ltb 2 m then 1 else 0)
    + (if m == 1
        then 0
        else if m == 2
        then 31
        else if m == 3
        then 59
        else if m == 4
        then 90
        else if m == 5
        then 120
        else if m == 6
        then 151
        else if m == 7
        then 181
        else if m == 8
        then 212
        else if m == 9
        then 243
        else if m == 10
        then 273
        else if m == 11
        then 304
        else 334)

unfoldable pub before_month : ℕ → ℕ → ℕ
unfolding is_leap
before_month y m = month_start (is_leap y) m

-- The days before a year, from the first of January of the year 0.
unfoldable pub before_year : ℕ → ℕ
before_year y = 365 * y + (y + 3) / 4 - (y + 99) / 100 + (y + 399) / 400

unfoldable pub day_number : Time → ℕ
unfolding before_year before_month
day_number t = before_year t.year + before_month t.year t.month + (t.day - 1)

-- Time.Weekday, with Sunday as 0: the first day of the year 0 was a Saturday.
unfoldable pub weekday : Time → ℕ
unfolding day_number
weekday t = (day_number t + 6) % 7

-- The same time of the next day.
unfoldable pub next_day : Time → Time
next_day t =
    if ltb t.day (days_in t.year t.month)
    then record t { day = t.day + 1 }
    else if ltb t.month 12
    then record t { month = t.month + 1; day = 1 }
    else record t { year = t.year + 1; month = 1; day = 1 }

-- AddDate(0, 0, n)
unfoldable pub add_days : ℕ → Time → Time
add_days zero t = t
add_days (suc n) t = add_days n (next_day t)

-- The minutes of an instant, from the first of January of the year 0.
unfoldable pub minutes : Time → ℕ
unfolding day_number
minutes t = day_number t * 1440 + t.hour * 60 + t.minute

abbrev thursday : Time
thursday = record { year = 2026; month = 9; day = 10; hour = 8; minute = 5; second = 0 }

thursday-weekday : weekday thursday ≡ 4
unfolding weekday
thursday-weekday = refl

abbrev leap_day : Time
leap_day = record { year = 2024; month = 2; day = 29; hour = 8; minute = 5; second = 0 }

leap_day-weekday : weekday leap_day ≡ 4
unfolding weekday
leap_day-weekday = refl
