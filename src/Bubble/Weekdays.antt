-- ===== src/Bubble/Weekdays.antt =====
-- internal/daemon/when.go, bubble.go: the day that a search for a day of the week finds, and the
-- instant that a request names.
use mailbox_cli.Prelude.{ℕ, ◌+◌, ◌%◌, ◌<◌, ◌≤◌, ◌≡◌, ◌≢◌, refl, ◌∙◌, sym, Bool, true, arith}
use mailbox_cli.Clock.Calendar.{Time, in_range, weekday, day_number, add_days}
use mailbox_cli.Clock.Days.{day_number-add_days, weekday-add_days}
use mailbox_cli.Bubble.When.{days_ahead, coming_weekday, one_if}

pub weekday_bound : (t : Time) → weekday t < 7
unfolding weekday
weekday_bound t = omega arith

days_ahead_lands :
    (w target : ℕ) (strict : Bool)
    → w < 7
    → target < 7
    → (w + days_ahead w target strict) % 7 ≡ target
unfolding days_ahead
days_ahead_lands w target strict h k = ground (arith, h, k)

days_ahead_bounds :
    (w target : ℕ) (strict : Bool)
    → w < 7
    → (one_if strict ≤ days_ahead w target strict)
      × (days_ahead w target strict < 7 + one_if strict)
unfolding days_ahead one_if
days_ahead_bounds w target strict h = ground (arith, h)

nothing_sooner :
    (w target n : ℕ) (strict : Bool)
    → w < 7
    → one_if strict ≤ n
    → n < days_ahead w target strict
    → target < 7
    → (w + n) % 7 ≢ target
unfolding days_ahead one_if
nothing_sooner w target n strict h l k t = λ e. ground (arith, h, l, k, t, e)

-- If a date is in its ranges, and a day of the week is named, then the search finds a day in its
-- ranges, with that day of the week and the time of the date, at most a week later, on a strict search at
-- least one day later, and no day between has that day of the week.
pub coming_weekday_lem :
    (from : Time) (target : ℕ) (strict : Bool)
    → in_range from ≡ true
    → target < 7
    → (n : ℕ) × (coming_weekday from target strict ≡ add_days n from)
      × (weekday (coming_weekday from target strict) ≡ target)
      × (day_number (coming_weekday from target strict) ≡ day_number from + n)
      × (one_if strict ≤ n)
      × (n < 7 + one_if strict)
      × ((k : ℕ) → one_if strict ≤ k → k < n → weekday (add_days k from) ≢ target)
unfolding coming_weekday
coming_weekday_lem from target strict h t =
    let w = weekday from in
    let n = days_ahead w target strict in
    let (low, high) = days_ahead_bounds w target strict (weekday_bound from) in
    (
      n,
      refl,
      weekday-add_days n from h ∙ days_ahead_lands w target strict (weekday_bound from) t,
      day_number-add_days n from h,
      low,
      high,
      λ k l u e.
          nothing_sooner w target k strict (weekday_bound from) l u t
            (sym (weekday-add_days k from h) ∙ e),
    )
