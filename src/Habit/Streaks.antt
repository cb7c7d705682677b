-- ===== src/Habit/Streaks.antt =====
-- internal/habit/habit.go: what Streak counts.
use mailbox_cli.Prelude.{
  ℕ, zero, suc, ◌+◌, ◌≤◌, ◌≡◌, refl, Bool, true, false, ◌&&◌, not, List, [], ◌∷◌, arith,
  if◌then◌else◌,
}
use mailbox_cli.Habit.Record.{Habit, Day, is_due, done_on, streak_from, streak}

-- Of the due days among so many from the i-th before today on, back in time: whether each was done.
abbrev pub marks : Habit → (ℕ → Day) → ℕ → ℕ → List Bool
marks h back zero i = []
marks h back (suc n) i =
    let rest = marks h back n (suc i) in
    if is_due h (back i).weekday then done_on h (back i).date ∷ rest else rest

-- How many were done before the first that was not.
abbrev pub leading : List Bool → ℕ
leading [] = 0
leading (true ∷ more) = suc (leading more)
leading (false ∷ more) = 0

-- Today is left out where it is due and not done yet.
abbrev pub run_of : Habit → (ℕ → Day) → ℕ
run_of h back =
    if is_due h (back 0).weekday && not (done_on h (back 0).date)
    then leading (marks h back 365 1)
    else leading (marks h back 366 0)

leading-cons : (b : Bool) (bs : List Bool) → leading (b ∷ bs) ≡ (if b then suc (leading bs) else 0)
leading-cons true bs = refl
leading-cons false bs = refl

streak_from-marks :
    (h : Habit) (back : ℕ → Day) (n i s : ℕ)
    → streak_from h back n (suc i) s ≡ s + leading (marks h back n (suc i))
unfolding streak_from
streak_from-marks h back zero i s = omega arith
streak_from-marks h back (suc n) i s =
    let due = is_due h (back (suc i)).weekday in
    let done = done_on h (back (suc i)).date in
    ground (
      arith,
      streak_from-marks h back n (suc i) (if due && done then suc s else s),
      leading-cons done (marks h back n (suc (suc i))),
    )

leading-marks : (h : Habit) (back : ℕ → Day) (n i : ℕ) → leading (marks h back n i) ≤ n
leading-marks h back zero i = omega arith
leading-marks h back (suc n) i = ground (
  arith,
  leading-marks h back n (suc i),
  leading-cons (done_on h (back i).date) (marks h back n (suc i)),
)

from_today :
    (h : Habit) (back : ℕ → Day) (n : ℕ)
    → streak_from h back (suc n) 0 0 ≡ (
        if is_due h (back 0).weekday && not (done_on h (back 0).date)
        then leading (marks h back n 1)
        else leading (marks h back (suc n) 0))
unfolding streak_from
from_today h back n =
    let due = is_due h (back 0).weekday in
    let done = done_on h (back 0).date in
    ground (
      arith,
      streak_from-marks h back n 0 (if due && done then 1 else 0),
      leading-cons done (marks h back n 1),
    )

-- A streak is the number of the due days, among the last 366, that were done after the last one that
-- was due and missed, where today does not count as missed.
pub streak-run_of : (h : Habit) (back : ℕ → Day) → streak h back ≡ run_of h back
unfolding streak
streak-run_of h back = from_today h back 365
