-- ===== src/Bubble/Ahead.antt =====
-- internal/daemon/bubble.go: where the instant that a request names lies from now.
use mailbox_cli.Prelude.{
  ℕ, ◌+◌, ◌*◌, ◌%◌, ◌<◌, ◌≤◌, ◌≡◌, ◌≢◌, refl, ap, ◌∙◌, sym, true, false, arith, Bool-cases, inl,
  inr, trim,
}
use mailbox_cli.Clock.Calendar.{Time, in_range, weekday, day_number, add_days, minutes}
use mailbox_cli.Clock.Ordered.{Ranges-of}
use mailbox_cli.Clock.Days.{day_number-add_days}
use mailbox_cli.Bubble.Weekdays.{weekday_bound}
use mailbox_cli.Bubble.When.{
  Timing, Hours, When, days_ahead, coming_weekday, one_if, is_given, how_many, at_hour,
  start_of_day, bubble_hours, timed, bubble_when,
}

day_number-start_of_day : (t : Time) → day_number (start_of_day t) ≡ day_number t
unfolding start_of_day day_number
day_number-start_of_day t = refl

weekday-start_of_day : (t : Time) → weekday (start_of_day t) ≡ weekday t
unfolding weekday
weekday-start_of_day t = ap (λ n. (n + 6) % 7) (day_number-start_of_day t)

start_of_day-in_range : (t : Time) → in_range t ≡ true → in_range (start_of_day t) ≡ true
unfolding start_of_day
start_of_day-in_range t h = ground (arith, h)

minutes-at_hour : (t : Time) (h : ℕ) → minutes (at_hour t h) ≡ day_number t * 1440 + h * 60
unfolding minutes at_hour day_number
minutes-at_hour t h = omega arith

-- An hour of a later day is later.
later_day :
    (n h : ℕ) (now : Time)
    → in_range now ≡ true
    → 1 ≤ n
    → minutes now < minutes (at_hour (add_days n (start_of_day now)) h)
unfolding minutes
later_day n h now r l =
    let d = Ranges-of now r in
    let e = minutes-at_hour (add_days n (start_of_day now)) h in
    let a = day_number-add_days n (start_of_day now) (start_of_day-in_range now r) in
    omega (arith, e, a, day_number-start_of_day now, d.hour_to, d.minute_to, l)

-- An hour that has passed is earlier.
earlier_hour :
    (h : ℕ) (now : Time) → h < now.hour → minutes (at_hour (start_of_day now) h) < minutes now
unfolding minutes
earlier_hour h now l =
    omega (arith, minutes-at_hour (start_of_day now) h, day_number-start_of_day now, l)

one_ahead : (w target : ℕ) → w < 7 → target < 7 → w ≢ target → 1 ≤ days_ahead w target false
unfolding days_ahead
one_ahead w target h k n = ground (arith, h, k, n)

strictly_ahead : (w target : ℕ) → 1 ≤ days_ahead w target true
unfolding days_ahead
strictly_ahead w target = ground arith

-- What a request that names one time asks for.
answered :
    (configured : Hours) (now : Time) (r : Timing)
    → how_many r ≡ 1
    → bubble_when configured now r ≡ timed (bubble_hours configured) (start_of_day now) r
unfolding bubble_when
answered configured now r h = rw h refl

only :
    (r : Timing)
    → how_many r ≡ 1
    → r.now ≡ false
    → is_given (trim r.on) ≡ false
    → r.tomorrow ≡ false
    → r.weekend ≡ false
    → r.next_week ≡ true
unfolding how_many one_if
only r h a b c d = ground (arith, h, a, b, c, d)

-- If a request names one time, neither --now nor --on, and not --weekend on a Saturday, then the
-- instant at which the thread is due lies after now.
pub bubble_when_ahead :
    (configured : Hours) (now : Time) (r : Timing)
    → in_range now ≡ true
    → how_many r ≡ 1
    → r.now ≡ false
    → is_given (trim r.on) ≡ false
    → (r.weekend ≡ true → weekday now ≢ 6)
    → (t : Time) × (bubble_when configured now r ≡ When.at t) × (minutes now < minutes t)
unfolding timed coming_weekday
bubble_when_ahead configured now r ok one later plain saturday =
    let hours = bubble_hours configured in
    let today = start_of_day now in
    let w = weekday today in
    let asked = answered configured now r one in
    elim (Bool-cases r.tomorrow) [
      | inl e ↦ (
        at_hour (add_days 1 today) hours.morning,
        asked ∙ rw (later, e) refl,
        later_day 1 hours.morning now ok (omega arith),
      )
      | inr e ↦ elim (Bool-cases r.weekend) [
        | inl f ↦ (
          at_hour (coming_weekday today 6 false) hours.morning,
          asked ∙ rw (later, e, f) refl,
          later_day (days_ahead w 6 false) hours.morning now ok (
              one_ahead w 6 (weekday_bound today) (omega arith)
                (λ q. saturday f (sym (weekday-start_of_day now) ∙ q))),
        )
        | inr f ↦ (
          at_hour (coming_weekday today 1 true) hours.morning,
          asked ∙ rw (later, e, f, only r one later plain e f) refl,
          later_day (days_ahead w 1 true) hours.morning now ok (strictly_ahead w 1),
        )
      ]
    ]

alone : (r : Timing) → how_many r ≡ 1 → r.weekend ≡ true → (r.now ≡ false) × (r.tomorrow ≡ false)
unfolding how_many one_if
alone r h e = (ground (arith, h, e), ground (arith, h, e))

-- If a request says --weekend alone, on a Saturday after the morning hour, then the thread is due at
-- an instant that has passed.
pub weekend_passed :
    (configured : Hours) (now : Time) (r : Timing)
    → how_many r ≡ 1
    → r.weekend ≡ true
    → weekday now ≡ 6
    → (bubble_hours configured).morning < now.hour
    → (t : Time) × (bubble_when configured now r ≡ When.at t) × (minutes t < minutes now)
unfolding timed coming_weekday start_of_day add_days days_ahead
weekend_passed configured now r one weekend saturday past =
    let hours = bubble_hours configured in
    let today = start_of_day now in
    let (no_now, no_tomorrow) = alone r one weekend in
    (
      at_hour today hours.morning,
      answered configured now r one
          ∙ rw (no_now, no_tomorrow, weekend, weekday-start_of_day now, saturday) refl,
      earlier_hour hours.morning now past,
    )
