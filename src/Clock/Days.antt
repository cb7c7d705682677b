-- ===== src/Clock/Days.antt =====
-- The day after a day has the next number, so AddDate counts days.
use mailbox_cli.Prelude.{
  ℕ, zero, suc, ◌+◌, ◌%◌, ◌<◌, ◌≤◌, ◌≡◌, refl, ap, ◌∙◌, Bool, true, false, arith, ltb, Bool-cases,
  inl, inr, ltb→lt,
}
use mailbox_cli.Clock.Calendar.{
  Time, is_leap, days_in, month_length, month_start, before_month, day_number, in_range, weekday,
  next_day, add_days,
}
use mailbox_cli.Clock.Months.{before_year-suc, month_next, month_last}
use mailbox_cli.Clock.Ordered.{Ranges, Ranges-of}

-- A day is followed by the day with the next number.
day_number-next_day : (t : Time) → Ranges t → day_number (next_day t) ≡ day_number t + 1
unfolding day_number next_day before_month days_in
day_number-next_day t r = elim (Bool-cases (ltb t.day (month_length (is_leap t.year) t.month))) [
  | inl e ↦ rw e (omega (arith, r.day_from))
  | inr e ↦ rw e (elim (Bool-cases (ltb t.month 12)) [
    | inl f ↦ rw f (
        omega (
          arith,
          r.day_from,
          r.day_to,
          last_day t.day (month_length (is_leap t.year) t.month) e,
          month_next (is_leap t.year) t.month r.month_from (ltb→lt t.month 12 f),
        ))
    | inr f ↦ rw f (
        omega (
          arith,
          r.day_from,
          r.day_to,
          last_day t.day (month_length (is_leap t.year) t.month) e,
          before_year-suc t.year,
          ap (month_start (is_leap t.year)) (december t.month f r.month_to),
          ap (month_length (is_leap t.year)) (december t.month f r.month_to),
          month_last (is_leap t.year),
          month_first (is_leap (t.year + 1)),
        ))
  ])
]
  where
    last_day : (d n : ℕ) → ltb d n ≡ false → n ≤ d
    last_day d n e = ground arith

    december : (m : ℕ) → ltb m 12 ≡ false → m < 13 → m ≡ 12
    december m e h = ground arith

    month_first : (b : Bool) → month_start b 1 ≡ 0
    month_first true = refl
    month_first false = refl

days_in_pos : (y m : ℕ) → 1 ≤ days_in y m
unfolding days_in
days_in_pos y m = ground arith

next_day-in_range : (t : Time) → in_range t ≡ true → in_range (next_day t) ≡ true
unfolding next_day
next_day-in_range t h = elim (Bool-cases (ltb t.day (days_in t.year t.month))) [
  | inl e ↦ rw e (ground (arith, h, e))
  | inr e ↦ rw e (elim (Bool-cases (ltb t.month 12)) [
    | inl f ↦ rw f (ground (arith, h, f, days_in_pos t.year (t.month + 1)))
    | inr f ↦ rw f (ground (arith, h, days_in_pos (t.year + 1) 1))
  ])
]

-- AddDate counts days.
pub day_number-add_days :
    (n : ℕ) (t : Time) → in_range t ≡ true → day_number (add_days n t) ≡ day_number t + n
unfolding add_days
day_number-add_days zero t h = omega arith
day_number-add_days (suc n) t h = omega (
  arith,
  day_number-add_days n (next_day t) (next_day-in_range t h),
  day_number-next_day t (Ranges-of t h),
)

pub add_days-in_range : (n : ℕ) (t : Time) → in_range t ≡ true → in_range (add_days n t) ≡ true
unfolding add_days
add_days-in_range zero t h = h
add_days-in_range (suc n) t h = add_days-in_range n (next_day t) (next_day-in_range t h)

-- The day of the week moves on by one each day.
pub weekday-add_days :
    (n : ℕ) (t : Time) → in_range t ≡ true → weekday (add_days n t) ≡ (weekday t + n) % 7
unfolding weekday
weekday-add_days n t h = omega (arith, day_number-add_days n t h)

next_day_clock : (t : Time) → ((next_day t).hour ≡ t.hour) × ((next_day t).minute ≡ t.minute)
unfolding next_day
next_day_clock t = ground arith

pub add_days_clock :
    (n : ℕ) (t : Time) → ((add_days n t).hour ≡ t.hour) × ((add_days n t).minute ≡ t.minute)
unfolding add_days
add_days_clock zero t = (refl, refl)
add_days_clock (suc n) t =
    let (h, m) = next_day_clock t in
    let (h', m') = add_days_clock n (next_day t) in (h' ∙ h, m' ∙ m)
