-- ===== src/Bubble/When.antt =====
-- internal/daemon/bubble.go and when.go: the instant at which a bubbled thread is due back, as a
-- request names it. The time now is an argument, in the local zone.
use mailbox_cli.Prelude.{
  ℕ, ◌+◌, ◌-◌, ◌%◌, Bool, true, false, ◌&&◌, ◌||◌, not, Option, none, some, List, [], ◌∷◌, Text,
  trim, text_eq, ltb, ◌==◌, if◌then◌else◌,
}
use mailbox_cli.Clock.Calendar.{Time, add_days, weekday}
use mailbox_cli.Clock.Layout.{Chunk, parse}

abbrev pub date_layout : List Chunk
date_layout =
    Chunk.long_year ∷ Chunk.sign b'-' ∷ Chunk.zero_month ∷ Chunk.sign b'-' ∷ Chunk.zero_day ∷ []

-- A whole hour of a day.
unfoldable pub at_hour : Time → ℕ → Time
at_hour day hour = record day { hour = hour; minute = 0; second = 0 }

unfoldable pub start_of_day : Time → Time
start_of_day t = record t { hour = 0; minute = 0; second = 0 }

-- How many days ahead a day of the week is, from another; a strict search is for a later day.
unfoldable pub days_ahead : ℕ → ℕ → Bool → ℕ
days_ahead from target strict =
    let delta = (target + 7 - from) % 7 in if delta == 0 && strict then 7 else delta

unfoldable pub coming_weekday : Time → ℕ → Bool → Time
coming_weekday from target strict = add_days (days_ahead (weekday from) target strict) from

-- A configured hour, or that of the program where it is not from 1 to 23. A negative hour, which a
-- natural number cannot be, would be as 0 is.
unfoldable pub hour_or : ℕ → ℕ → ℕ
hour_or default configured = if configured == 0 || ltb 23 configured then default else configured

-- What a request for a bubble says.
pub record Timing : Type 0 where
  pub now : Bool
  pub tomorrow : Bool
  pub weekend : Bool
  pub next_week : Bool
  pub on : Text

pub record Hours : Type 0 where
  pub morning : ℕ
  pub evening : ℕ

unfoldable pub bubble_hours : Hours → Hours
unfolding hour_or
bubble_hours h = record { morning = hour_or 8 h.morning; evening = hour_or 18 h.evening }

-- At once, at an instant, or what is wrong with the request.
pub data When : Type 0 where
  at_once : When
  at : Time → When
  none_given too_many bad_date : When

unfoldable pub one_if : Bool → ℕ
one_if b = if b then 1 else 0

unfoldable pub is_given : Text → Bool
is_given t = not (text_eq t [])

unfoldable pub how_many : Timing → ℕ
unfolding one_if is_given
how_many r =
    one_if r.now
    + one_if r.tomorrow
    + one_if r.weekend
    + one_if r.next_week
    + one_if (is_given (trim r.on))

unfoldable pub same_date : Time → Time → Bool
same_date a b = a.year == b.year && a.month == b.month && a.day == b.day

abbrev pub on_date : Hours → Time → Option Time → When
on_date hours today none = When.bad_date
on_date hours today (some day) =
    if same_date day today
    then When.at (at_hour today hours.evening)
    else When.at (at_hour day hours.morning)

unfoldable pub timed : Hours → Time → Timing → When
timed hours today r =
    if r.now
    then When.at_once
    else if r.tomorrow
    then When.at (at_hour (add_days 1 today) hours.morning)
    else if r.weekend
    then When.at (at_hour (coming_weekday today 6 false) hours.morning)
    else if r.next_week
    then When.at (at_hour (coming_weekday today 1 true) hours.morning)
    else on_date hours today (parse date_layout (trim r.on))

unfoldable pub bubble_when : Hours → Time → Timing → When
unfolding timed how_many
bubble_when configured now r =
    if how_many r == 0
    then When.none_given
    else if ltb 1 (how_many r)
    then When.too_many
    else timed (bubble_hours configured) (start_of_day now) r
