-- ===== src/Clock/Layout.antt =====
-- Go's time.Format and time.ParseInLocation, for the parts of a layout that the program uses.
use mailbox_cli.Prelude.{
  ℕ, ◌+◌, ◌-◌, ◌*◌, ◌/◌, ◌%◌, Bool, true, false, ◌&&◌, ◌||◌, not, Option, none, some, List, [], ◌∷◌,
  ◌++◌, Text, ltb, ◌==◌, if◌then◌else◌,
}
use mailbox_cli.Prelude.Decimal.{decimal}
use mailbox_cli.Prelude.Numerals.{is_digit}
use mailbox_cli.Clock.Calendar.{Time, in_range}

-- One part of a layout: 2006, 01, 02, 15, 04, 05, a blank, or a sign that stands for itself.
pub data Chunk : Type 0 where
  long_year zero_month zero_day hour24 zero_minute zero_second blank : Chunk
  sign : ℕ → Chunk

abbrev pub two : ℕ → Text
two n = (48 + n / 10) ∷ (48 + n % 10) ∷ []

-- A year is padded to four digits.
unfoldable pub year_text : ℕ → Text
year_text y =
    if ltb y 10000
    then (48 + y / 1000) ∷ (48 + y / 100 % 10) ∷ (48 + y / 10 % 10) ∷ (48 + y % 10) ∷ []
    else decimal y

unfoldable pub chunk_text : Chunk → Time → Text
chunk_text Chunk.long_year t = year_text t.year
chunk_text Chunk.zero_month t = two t.month
chunk_text Chunk.zero_day t = two t.day
chunk_text Chunk.hour24 t = two t.hour
chunk_text Chunk.zero_minute t = two t.minute
chunk_text Chunk.zero_second t = two t.second
chunk_text Chunk.blank t = 32 ∷ []
chunk_text (Chunk.sign c) t = c ∷ []

-- Time.Format
unfoldable pub format : List Chunk → Time → Text
unfolding chunk_text
format [] t = []
format (c ∷ cs) t = chunk_text c t ++ format cs t

-- Two digits; one is enough where the field is not fixed.
unfoldable pub get_num : Bool → Text → Option (ℕ × Text)
get_num fixed [] = none
get_num fixed (a ∷ []) = if is_digit a && not fixed then some (a - 48, []) else none
get_num fixed (a ∷ b ∷ s) =
    if not (is_digit a)
    then none
    else if is_digit b
    then some ((a - 48) * 10 + (b - 48), s)
    else if fixed
    then none
    else some (a - 48, b ∷ s)

unfoldable pub get_year : Text → Option (ℕ × Text)
get_year (a ∷ b ∷ c ∷ d ∷ s) =
    if is_digit a && is_digit b && is_digit c && is_digit d
    then some ((a - 48) * 1000 + (b - 48) * 100 + (c - 48) * 10 + (d - 48), s)
    else none
get_year _ = none

abbrev pub drop_blanks : Text → Text
drop_blanks [] = []
drop_blanks (c ∷ s) = let rest = drop_blanks s in if c == 32 then rest else c ∷ s

abbrev drop_digits : Text → Text
drop_digits [] = []
drop_digits (c ∷ s) = let rest = drop_digits s in if is_digit c then rest else c ∷ s

-- A fraction of a second is accepted after the seconds, and lies below what a Time holds.
unfoldable pub skip_fraction : Text → Text
skip_fraction (p ∷ d ∷ s) =
    if (p == b'.' || p == b',') && is_digit d then drop_digits s else p ∷ d ∷ s
skip_fraction s = s

-- A blank of the layout stands for any number of blanks, or for the end of the text.
unfoldable pub skip_blank : Text → Option Text
skip_blank [] = some []
skip_blank (c ∷ s) = if c == 32 then some (drop_blanks s) else none

unfoldable pub skip_sign : ℕ → Text → Option Text
skip_sign c [] = none
skip_sign c (x ∷ s) = if x == c then some s else none

infixl 5 ◌>>=◌
abbrev pub ◌>>=◌ : {A B : Type 0} → Option A → (A → Option B) → Option B
none >>= f = none
some a >>= f = f a

-- What one part of a layout reads, and the rest of the text.
unfoldable pub read_chunk : Chunk → Time → Text → Option (Time × Text)
unfolding get_num get_year skip_fraction skip_blank skip_sign
read_chunk Chunk.long_year t s = do r ← get_year s; some (record t { year = r.0 }, r.1)
read_chunk Chunk.zero_month t s = do r ← get_num true s; some (record t { month = r.0 }, r.1)
read_chunk Chunk.zero_day t s = do r ← get_num true s; some (record t { day = r.0 }, r.1)
read_chunk Chunk.hour24 t s = do r ← get_num false s; some (record t { hour = r.0 }, r.1)
read_chunk Chunk.zero_minute t s = do r ← get_num true s; some (record t { minute = r.0 }, r.1)
read_chunk Chunk.zero_second t s = do
  r ← get_num true s
  some (record t { second = r.0 }, skip_fraction r.1)
read_chunk Chunk.blank t s = do r ← skip_blank s; some (t, r)
read_chunk (Chunk.sign c) t s = do r ← skip_sign c s; some (t, r)

-- What no part of the layout says.
abbrev pub unsaid : Time
unsaid = record { year = 0; month = 1; day = 1; hour = 0; minute = 0; second = 0 }

-- Nothing may follow, and every field must be in its range.
unfoldable pub parse_from : List Chunk → Time → Text → Option Time
unfolding read_chunk
parse_from [] t [] = if in_range t then some t else none
parse_from [] t (x ∷ s) = none
parse_from (c ∷ cs) t s = do r ← read_chunk c t s; parse_from cs r.0 r.1

-- ParseInLocation, for the local zone; an error is `none`.
unfoldable pub parse : List Chunk → Text → Option Time
unfolding parse_from
parse cs s = parse_from cs unsaid s
