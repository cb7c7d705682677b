-- ===== src/Clock/Ordered.antt =====
-- The order of instants: the days and minutes of the calendar grow with the fields of a time.
use mailbox_cli.Prelude.{
  ℕ, ◌+◌, ◌-◌, ◌<◌, ◌≤◌, ◌≡◌, refl, ap, ◌∙◌, sym, Bool, true, false, ◌&&◌, ◌||◌, arith, ltb, ◌==◌,
  Bool-cases, inl, inr, ◌⊎◌, ltb→lt, lt→ltb,
}
use mailbox_cli.Clock.Calendar.{
  Time, is_leap, month_length, month_start, days_in, before_month, before_year, day_number, minutes,
  in_range,
}
use mailbox_cli.Clock.Months.{leap, years_grow, months_grow, month_ends}

-- What the ranges say, as orders.
pub record Ranges (t : Time) : Type 0 where
  pub month_from : 1 ≤ t.month
  pub month_to : t.month < 13
  pub day_from : 1 ≤ t.day
  pub day_to : t.day ≤ month_length (is_leap t.year) t.month
  pub hour_to : t.hour < 24
  pub minute_to : t.minute < 60

pub Ranges-of : (t : Time) → in_range t ≡ true → Ranges t
unfolding days_in
Ranges-of t h = record {
  month_from = ground (arith, h);
  month_to = ground (arith, h);
  day_from = ground (arith, h);
  day_to = ground (arith, h);
  hour_to = ground (arith, h);
  minute_to = ground (arith, h);
}

day_ends : (t : Time) → Ranges t → before_month t.year t.month + (t.day - 1) < 365 + leap t.year
unfolding before_month
day_ends t r = omega (arith, month_ends (is_leap t.year) t.month r.month_to, r.day_to, r.day_from)

by_year : (a b : Time) → Ranges a → a.year < b.year → day_number a < day_number b
unfolding day_number
by_year a b r h = omega (arith, years_grow a.year b.year h, day_ends a r)

by_month :
    (a b : Time)
    → Ranges a
    → Ranges b
    → a.year ≡ b.year
    → a.month < b.month
    → day_number a < day_number b
unfolding day_number before_month
by_month a b r s e h = omega (
  arith,
  months_grow (is_leap a.year) a.month b.month r.month_from h s.month_to,
  r.day_to,
  r.day_from,
  ap before_year e,
  ap (λ y. month_start (is_leap y) b.month) e,
)

by_day :
    (a b : Time)
    → Ranges a
    → a.year ≡ b.year
    → a.month ≡ b.month
    → a.day < b.day
    → day_number a < day_number b
unfolding day_number
by_day a b r y m h =
    let m' = ap (before_month a.year) m in
    let y' = ap (λ x. before_month x b.month) y in
    omega (arith, ap before_year y, m', y', r.day_from)

same_day :
    (a b : Time) → a.year ≡ b.year → a.month ≡ b.month → a.day ≡ b.day → day_number a ≡ day_number b
unfolding day_number
same_day a b y m d = rw (y, m, d) refl

-- The first of two fields decides, or the rest does.
abbrev pub first_then : ℕ → ℕ → Bool → Bool
first_then x y rest = ltb x y || (x == y && rest)

first_then-cases :
    (x y : ℕ) (rest : Bool) → first_then x y rest ≡ true → (x < y) ⊎ ((x ≡ y) × (rest ≡ true))
first_then-cases x y rest h = elim (Bool-cases (ltb x y)) [
  | inl e ↦ inl (ground arith)
  | inr e ↦ inr (ground arith, ground arith)
]

-- The first field that differs decides.
abbrev pub comes_before : Time → Time → Bool
comes_before a b = first_then a.year b.year (
    first_then a.month b.month
      (first_then a.day b.day (first_then a.hour b.hour (ltb a.minute b.minute))))

earlier_day :
    (a b : Time) → Ranges a → Ranges b → day_number a < day_number b → minutes a < minutes b
unfolding minutes
earlier_day a b r s h = omega (arith, r.hour_to, r.minute_to)

minutes_grow : (a b : Time) → Ranges a → Ranges b → comes_before a b ≡ true → minutes a < minutes b
unfolding minutes
minutes_grow a b r s h = elim (first_then-cases a.year b.year _ h) [
  | inl y ↦ earlier_day a b r s (by_year a b r y)
  | inr (y, h1) ↦ elim (first_then-cases a.month b.month _ h1) [
    | inl m ↦ earlier_day a b r s (by_month a b r s y m)
    | inr (m, h2) ↦ elim (first_then-cases a.day b.day _ h2) [
      | inl d ↦ earlier_day a b r s (by_day a b r y m d)
      | inr (d, h3) ↦ elim (first_then-cases a.hour b.hour _ h3) [
        | inl t ↦ omega (arith, same_day a b y m d, r.minute_to)
        | inr (t, h4) ↦ omega (arith, same_day a b y m d, ltb→lt a.minute b.minute h4)
      ]
    ]
  ]
]

neither :
    (x y : ℕ) (p q : Bool)
    → first_then x y p ≡ false
    → first_then y x q ≡ false
    → (x ≡ y) × (p ≡ false) × (q ≡ false)
neither x y p q h k = (same, ground (arith, h, same), ground (arith, k, same))
  where
    same : x ≡ y
    same = ground (arith, h, k)

minutes_same :
    (a b : Time) → comes_before a b ≡ false → comes_before b a ≡ false → minutes a ≡ minutes b
unfolding minutes
minutes_same a b h k =
    let (y, h1, k1) = neither a.year b.year _ _ h k in
    let (m, h2, k2) = neither a.month b.month _ _ h1 k1 in
    let (d, h3, k3) = neither a.day b.day _ _ h2 k2 in
    let (t, h4, k4) = neither a.hour b.hour _ _ h3 k3 in
    let n : a.minute ≡ b.minute = ground (arith, h4, k4) in omega (arith, same_day a b y m d, t, n)

-- The first field that differs, if the times are in their ranges, says which instant is earlier.
pub comes_before-minutes :
    (a b : Time)
    → in_range a ≡ true
    → in_range b ≡ true
    → comes_before a b ≡ ltb (minutes a) (minutes b)
comes_before-minutes a b h k =
    let r = Ranges-of a h in
    let s = Ranges-of b k in
    elim (Bool-cases (comes_before a b)) [
      | inl e ↦ e ∙ sym (lt→ltb (minutes a) (minutes b) (minutes_grow a b r s e))
      | inr e ↦ elim (Bool-cases (comes_before b a)) [
        | inl f ↦ e ∙ sym (not_before (minutes a) (minutes b) (le_of (minutes_grow b a s r f)))
        | inr f ↦ e ∙ sym (not_before (minutes a) (minutes b) (at_most (minutes_same a b e f)))
      ]
    ]
  where
    not_before : (x y : ℕ) → y ≤ x → ltb x y ≡ false
    not_before x y h = ground arith

    le_of : {x y : ℕ} → y < x → y ≤ x
    le_of h = omega arith

    at_most : {x y : ℕ} → x ≡ y → y ≤ x
    at_most h = omega arith
