-- ===== src/Clock/Printed.antt =====
-- The text of a time is read back as the time, part by part.
use mailbox_cli.Prelude.{
  ℕ, ◌+◌, ◌-◌, ◌*◌, ◌/◌, ◌%◌, ◌<◌, ◌≤◌, ◌≡◌, refl, ◌∙◌, Bool, true, false, some, List, [], ◌∷◌,
  ◌++◌, Text, arith, ltb,
}
use mailbox_cli.Prelude.Numerals.{is_digit}
use mailbox_cli.Clock.Calendar.{Time, in_range, days_in}
use mailbox_cli.Clock.Layout.{
  Chunk, two, year_text, chunk_text, format, get_num, get_year, skip_sign, read_chunk, parse_from,
  parse, unsaid,
}

-- What a layout sets of one time in another.
abbrev pub set_chunk : Chunk → Time → Time → Time
set_chunk Chunk.long_year t r = record r { year = t.year }
set_chunk Chunk.zero_month t r = record r { month = t.month }
set_chunk Chunk.zero_day t r = record r { day = t.day }
set_chunk Chunk.hour24 t r = record r { hour = t.hour }
set_chunk Chunk.zero_minute t r = record r { minute = t.minute }
set_chunk Chunk.zero_second t r = record r { second = t.second }
set_chunk Chunk.blank t r = r
set_chunk (Chunk.sign c) t r = r

abbrev pub set_chunks : List Chunk → Time → Time → Time
set_chunks [] t r = r
set_chunks (c ∷ cs) t r = set_chunks cs t (set_chunk c t r)

-- A layout with no blank and no seconds.
abbrev pub IsPlain : List Chunk → Type 0
IsPlain [] = Unit
IsPlain (Chunk.blank ∷ cs) = ⊥
IsPlain (Chunk.zero_second ∷ cs) = ⊥
IsPlain (_ ∷ cs) = IsPlain cs

-- A time that a layout prints with fixed widths.
pub record IsClock (t : Time) : Type 0 where
  pub ranges : in_range t ≡ true
  pub four_digits : t.year < 10000

get_num-two : (fixed : Bool) (n : ℕ) (s : Text) → n < 100 → get_num fixed (two n ++ s) ≡ some (n, s)
unfolding get_num
get_num-two fixed n s h = rw (tens, ones, value) refl
  where
    tens : is_digit (48 + n / 10) ≡ true
    tens = ground (arith, h)

    ones : is_digit (48 + n % 10) ≡ true
    ones = ground (arith, h)

    value : (48 + n / 10 - 48) * 10 + (48 + n % 10 - 48) ≡ n
    value = omega arith

get_year-year_text : (y : ℕ) (s : Text) → y < 10000 → get_year (year_text y ++ s) ≡ some (y, s)
unfolding get_year year_text
get_year-year_text y s h = rw (small, first, second, third, fourth, value) refl
  where
    small : ltb y 10000 ≡ true
    small = ground (arith, h)

    first : is_digit (48 + y / 1000) ≡ true
    first = ground (arith, h)

    second : is_digit (48 + y / 100 % 10) ≡ true
    second = ground (arith, h)

    third : is_digit (48 + y / 10 % 10) ≡ true
    third = ground (arith, h)

    fourth : is_digit (48 + y % 10) ≡ true
    fourth = ground (arith, h)

    value :
        (48 + y / 1000 - 48) * 1000
          + (48 + y / 100 % 10 - 48) * 100
          + (48 + y / 10 % 10 - 48) * 10
          + (48 + y % 10 - 48)
        ≡ y
    value = omega arith

days_bound : (y m : ℕ) → days_in y m ≤ 31
unfolding days_in
days_bound y m = ground arith

pub month_below : (t : Time) → IsClock t → t.month < 100
month_below t c = ground (arith, c.ranges)

pub day_below : (t : Time) → IsClock t → t.day < 100
day_below t c = ground (arith, c.ranges, days_bound t.year t.month)

pub hour_below : (t : Time) → IsClock t → t.hour < 100
hour_below t c = ground (arith, c.ranges)

pub minute_below : (t : Time) → IsClock t → t.minute < 100
minute_below t c = ground (arith, c.ranges)

parse_from-format :
    (cs : List Chunk) (t r : Time)
    → IsPlain cs
    → IsClock t
    → parse_from cs r (format cs t) ≡ parse_from [] (set_chunks cs t r) []
unfolding parse_from read_chunk format chunk_text
parse_from-format [] t r p c = refl
parse_from-format (Chunk.long_year ∷ cs) t r p c =
    rw (get_year-year_text t.year (format cs t) c.four_digits)
      (parse_from-format cs t (record r { year = t.year }) p c)
parse_from-format (Chunk.zero_month ∷ cs) t r p c =
    rw (get_num-two true t.month (format cs t) (month_below t c))
      (parse_from-format cs t (record r { month = t.month }) p c)
parse_from-format (Chunk.zero_day ∷ cs) t r p c =
    rw (get_num-two true t.day (format cs t) (day_below t c))
      (parse_from-format cs t (record r { day = t.day }) p c)
parse_from-format (Chunk.hour24 ∷ cs) t r p c =
    rw (get_num-two false t.hour (format cs t) (hour_below t c))
      (parse_from-format cs t (record r { hour = t.hour }) p c)
parse_from-format (Chunk.zero_minute ∷ cs) t r p c =
    rw (get_num-two true t.minute (format cs t) (minute_below t c))
      (parse_from-format cs t (record r { minute = t.minute }) p c)
parse_from-format (Chunk.zero_second ∷ cs) t r p c = absurd p
parse_from-format (Chunk.blank ∷ cs) t r p c = absurd p
parse_from-format (Chunk.sign x ∷ cs) t r p c =
    rw (skip_sign-same x (format cs t)) (parse_from-format cs t r p c)
  where
    skip_sign-same : (x : ℕ) (s : Text) → skip_sign x (x ∷ s) ≡ some s
    skip_sign-same x s = ground arith

-- A time in its ranges is read back by a plain layout, but for what the layout does not say.
pub parse-format :
    (cs : List Chunk) (t : Time)
    → IsPlain cs
    → IsClock t
    → in_range (set_chunks cs t unsaid) ≡ true
    → parse cs (format cs t) ≡ some (set_chunks cs t unsaid)
unfolding parse parse_from
parse-format cs t p c e = parse_from-format cs t unsaid p c ∙ rw e refl
