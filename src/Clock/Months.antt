-- ===== src/Clock/Months.antt =====
-- The months of a year follow each other, and so do the years.
use mailbox_cli.Prelude.{
  ℕ, zero, suc, ◌+◌, ◌-◌, ◌<◌, ◌≤◌, ◌≡◌, refl, ap, Bool, true, false, ◌&&◌, not, arith, ltb, leb,
  if◌then◌else◌, ◌||◌, ◌==◌,
}
use mailbox_cli.Clock.Calendar.{is_leap, month_length, month_start, before_year}

abbrev pub leap : ℕ → ℕ
leap y = if is_leap y then 1 else 0

pub before_year-suc : (y : ℕ) → before_year (y + 1) ≡ before_year y + 365 + leap y
unfolding before_year is_leap
before_year-suc y = ground arith

before_year_mono : (k y : ℕ) → before_year y ≤ before_year (y + k)
unfolding before_year
before_year_mono k y = omega arith

-- A test passes at every month number under a bound.
passes : (ℕ → Bool) → ℕ → Bool
passes test zero = true
passes test (suc m) = let rest = passes test m in if test m then rest else false

passes_at : (test : ℕ → Bool) (bound m : ℕ) → passes test bound ≡ true → m < bound → test m ≡ true
unfolding passes
passes_at test zero m ok small = elim small [ ]
passes_at test (suc bound) m ok small = ground (arith, passes_at test bound m)

abbrev ends_before : Bool → ℕ → ℕ → Bool
ends_before b m n =
    not (leb 1 m && ltb m n) || leb (month_start b m + month_length b m) (month_start b n)

-- A month ends within its year, and before every later month starts.
abbrev month_fits : Bool → ℕ → Bool
month_fits b m =
    leb (month_start b m + month_length b m) (365 + (if b then 1 else 0))
    && passes (ends_before b m) 13

table : (b : Bool) → passes (month_fits b) 13 ≡ true
unfolding passes
table true = refl
table false = refl

row : (b : Bool) (m : ℕ) → m < 13 → month_fits b m ≡ true
row b m h = passes_at (month_fits b) 13 m (table b) h

pub months_grow :
    (b : Bool) (m n : ℕ)
    → 1 ≤ m
    → m < n
    → n < 13
    → month_start b m + month_length b m ≤ month_start b n
months_grow b m n l h k =
    let whole = row b m (omega arith) in
    let r : ends_before b m n ≡ true = passes_at (ends_before b m) 13 n (ground (arith, whole)) k in
    ground (arith, r)

pub month_ends :
    (b : Bool) (m : ℕ) → m < 13 → month_start b m + month_length b m ≤ 365 + (if b then 1 else 0)
month_ends b m h = ground (arith, row b m h)

pub years_grow : (y z : ℕ) → y < z → before_year y + 365 + leap y ≤ before_year z
years_grow y z h =
    let e : y + 1 + (z - (y + 1)) ≡ z = omega arith in
    omega (arith, before_year-suc y, before_year_mono (z - (y + 1)) (y + 1), ap before_year e)

abbrev next_in_table : Bool → ℕ → Bool
next_in_table b m = not (leb 1 m) || month_start b (m + 1) == month_start b m + month_length b m

next_table : (b : Bool) → passes (next_in_table b) 12 ≡ true
unfolding passes
next_table true = refl
next_table false = refl

-- A month starts where the one before it ends.
pub month_next :
    (b : Bool) (m : ℕ) → 1 ≤ m → m < 12 → month_start b (m + 1) ≡ month_start b m + month_length b m
month_next b m l h =
    let r : next_in_table b m ≡ true = passes_at (next_in_table b) 12 m (next_table b) h in
    ground (arith, r)

pub month_last : (b : Bool) → month_start b 12 + month_length b 12 ≡ 365 + (if b then 1 else 0)
month_last true = refl
month_last false = refl
