-- ===== src/Habit/Week.antt =====
-- internal/habit/habit.go, ParseDays: the days of the week that a caller names.
use mailbox_cli.Prelude.{
  ℕ, ◌<◌, ◌≡◌, ◌≢◌, refl, sym, ◌∙◌, subst, inl, inr, false, ◌||◌, Option, none, some, List, [], ◌∷◌,
  ◌++◌, Text, text_eq, text_eq_iff, text_eq_refl, to_lower, trim, length, any_of-append, All, ltb,
  arith, Bool-cases,
}
use mailbox_cli.Habit.Record.{
  weekdays, day_alias, has, find_day, split_comma, add_day, days_of, index_of, index_in, insert_day,
  sort_days, sorted_days, parse_days,
}

-- Days of the week, each once, in the order of the week.
abbrev pub IsWeek : List Text → Type 0
IsWeek [] = Unit
IsWeek (d ∷ ds) = (index_of d < 7) × All (λ e. index_of d < index_of e) ds × IsWeek ds

-- Days of the week, each once.
abbrev AreDays : List Text → Type 0
AreDays [] = Unit
AreDays (d ∷ ds) = (index_of d < 7) × (has d ds ≡ false) × AreDays ds

index_in_same :
    (a b : Text) (ws : List Text)
    → index_in a ws < length ws
    → index_in a ws ≡ index_in b ws
    → a ≡ b
unfolding index_in
index_in_same a b [] h e = absurd (omega (arith, h))
index_in_same a b (w ∷ ws) h e = elim (Bool-cases (text_eq w a)) [
  | inl p ↦ elim (Bool-cases (text_eq w b)) [
    | inl q ↦ sym ((text_eq_iff w a).0 p) ∙ (text_eq_iff w b).0 q
    | inr q ↦ absurd (ground (arith, h, e, p, q))
  ]
  | inr p ↦ elim (Bool-cases (text_eq w b)) [
    | inl q ↦ absurd (ground (arith, h, e, p, q))
    | inr q ↦ index_in_same a b ws (ground (arith, h, p)) (ground (arith, e, p, q))
  ]
]

-- Two days of the week at one place are one.
index_of_same : (a b : Text) → index_of a < 7 → index_of a ≡ index_of b → a ≡ b
unfolding index_of
index_of_same a b h e = index_in_same a b weekdays (unfold weekdays in h) e

All-insert_day :
    (P : Text → Type 0) (d : Text) (ds : List Text) → P d → All P ds → All P (insert_day d ds)
unfolding insert_day
All-insert_day P d [] p ps = (p, tt)
All-insert_day P d (x ∷ ds) p (q, qs) = ground (arith, p, q, qs, All-insert_day P d ds p qs)

all_above :
    (a b : ℕ) (ds : List Text) → a < b → All (λ e. b < index_of e) ds → All (λ e. a < index_of e) ds
all_above a b [] h p = tt
all_above a b (d ∷ ds) h (p, ps) = (omega (arith, h, p), all_above a b ds h ps)

insert_day-IsWeek :
    (d : Text) (ds : List Text)
    → index_of d < 7
    → has d ds ≡ false
    → IsWeek ds
    → IsWeek (insert_day d ds)
unfolding insert_day
insert_day-IsWeek d [] h n w = (h, tt, tt)
insert_day-IsWeek d (x ∷ ds) h n (hx, after, w) =
    elim (Bool-cases (ltb (index_of x) (index_of d))) [
      | inl e ↦ rw e (
        hx,
        All-insert_day (λ y. index_of x < index_of y) d ds (ground (arith, e)) after,
        insert_day-IsWeek d ds h (ground (arith, n)) w,
      )
      | inr e ↦
          rw e
            (h, (below e, all_above (index_of d) (index_of x) ds (below e) after), (hx, after, w))
    ]
  where
    differ : index_of d ≢ index_of x
    differ q = ground (arith, n, text_eq_iff x d, index_of_same d x h q)

    below : ltb (index_of x) (index_of d) ≡ false → index_of d < index_of x
    below e = ground (arith, e, differ)

has-insert_day : (t x : Text) (xs : List Text) → has t (insert_day x xs) ≡ (text_eq x t || has t xs)
unfolding insert_day
has-insert_day t x [] = refl
has-insert_day t x (y ∷ xs) = ground (arith, has-insert_day t x xs)

has-sort_days : (t : Text) (xs : List Text) → has t (sort_days xs) ≡ has t xs
unfolding sort_days
has-sort_days t [] = refl
has-sort_days t (x ∷ xs) = ground (arith, has-insert_day t x (sort_days xs), has-sort_days t xs)

sort_days-IsWeek : (ds : List Text) → AreDays ds → IsWeek (sort_days ds)
unfolding sort_days
sort_days-IsWeek [] p = tt
sort_days-IsWeek (d ∷ ds) (h, n, ps) =
    insert_day-IsWeek d (sort_days ds) h (has-sort_days d ds ∙ n) (sort_days-IsWeek ds ps)

append-AreDays :
    (ds : List Text) (d : Text)
    → AreDays ds
    → index_of d < 7
    → has d ds ≡ false
    → AreDays (ds ++ (d ∷ []))
append-AreDays [] d p h n = (h, refl, tt)
append-AreDays (x ∷ ds) d (hx, nx, p) h n = (
  hx,
  any_of-append (λ y. text_eq y x) ds (d ∷ [])
      ∙ ground (arith, nx, n, text_eq_iff d x, text_eq_iff x d, text_eq_refl x),
  append-AreDays ds d p h (ground (arith, n)),
)

-- The words of a table mean its days.
find_day-among :
    (word d : Text) (table : List (Text × List Text))
    → All (λ row. index_of row.0 < 7) table
    → find_day word table ≡ some d
    → index_of d < 7
unfolding find_day
find_day-among word d [] p h = cc
find_day-among word d ((day, words) ∷ table) (p, ps) h = elim (Bool-cases (has word words)) [
  | inl e ↦ subst (λ x. index_of x < 7) (ground (arith, h, e)) p
  | inr e ↦ find_day-among word d table ps (ground (arith, h, e))
]

alias_days : All (λ (row : Text × List Text). index_of row.0 < 7) day_alias
unfolding day_alias index_of index_in weekdays
alias_days = ground arith

days_of-AreDays :
    (parts out ds : List Text) → AreDays out → days_of parts out ≡ some ds → AreDays ds
unfolding days_of
days_of-AreDays [] out ds p h = subst AreDays (ground (arith, h)) p
days_of-AreDays (part ∷ parts) out ds p h =
    by_found (find_day (to_lower (trim part)) day_alias) refl h
      (λ out' q e. days_of-AreDays parts out' ds q e)
  where
    by_found :
        (o : Option Text)
        → find_day (to_lower (trim part)) day_alias ≡ o
        → add_day o out (days_of parts) ≡ some ds
        → ((out' : List Text) → AreDays out' → days_of parts out' ≡ some ds → AreDays ds)
        → AreDays ds
    by_found none e q ih = cc
    by_found (some day) e q ih = elim (Bool-cases (has day out)) [
      | inl b ↦ ih out p (ground (arith, q, b))
      | inr b ↦
          ih (out ++ (day ∷ []))
            (append-AreDays out day p
              (find_day-among (to_lower (trim part)) day day_alias alias_days e) b)
            (ground (arith, q, b))
    ]

weekdays-IsWeek : IsWeek weekdays
unfolding weekdays index_of index_in
weekdays-IsWeek = ground arith

-- What ParseDays reads is days of the week, each once, in the order of the week.
pub parse_days-IsWeek : (s : Text) (ds : List Text) → parse_days s ≡ some ds → IsWeek ds
unfolding parse_days
parse_days-IsWeek s ds h = elim (Bool-cases (text_eq (trim s) [])) [
  | inl e ↦ subst IsWeek (ground (arith, h, e)) weekdays-IsWeek
  | inr e ↦ by_days (days_of (split_comma s) []) refl (ground (arith, h, e))
]
  where
    by_days :
        (o : Option (List Text))
        → days_of (split_comma s) [] ≡ o
        → sorted_days o ≡ some ds
        → IsWeek ds
    by_days none e q = cc
    by_days (some out) e q =
        subst IsWeek (ground (arith, q))
          (sort_days-IsWeek out (days_of-AreDays (split_comma s) [] out tt e))
