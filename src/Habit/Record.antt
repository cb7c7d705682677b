-- ===== src/Habit/Record.antt =====
-- internal/habit/habit.go: the days that a habit is due and was done.
use mailbox_cli.Prelude.Cuts.{cut, has_prefix, equal_fold}
use mailbox_cli.Prelude.{
  map, ℕ, zero, suc, Bool, true, false, ◌&&◌, ◌||◌, not, Option, none, some, List, [], ◌∷◌, ◌++◌,
  Text, codes, text_eq, text_ltb, to_lower, trim, ltb, ◌==◌, if◌then◌else◌, select, any_of,
}

pub record Habit : Type 0 where
  pub id : Text
  pub name : Text
  pub days : List Text
  pub done : List Text
  pub color : Text
  pub icon : Text

unfoldable pub weekdays : List Text
weekdays =
    codes "mon"
    ∷ codes "tue"
    ∷ codes "wed"
    ∷ codes "thu"
    ∷ codes "fri"
    ∷ codes "sat"
    ∷ codes "sun"
    ∷ []

-- dayAlias, by the day: the words that mean it.
unfoldable pub day_alias : List (Text × List Text)
day_alias =
    (codes "mon", codes "mon" ∷ codes "monday" ∷ codes "montag" ∷ codes "1" ∷ [])
    ∷ (
      codes "tue",
      codes "tue" ∷ codes "tues" ∷ codes "tuesday" ∷ codes "dienstag" ∷ codes "2" ∷ [],
    )
    ∷ (codes "wed", codes "wed" ∷ codes "wednesday" ∷ codes "mittwoch" ∷ codes "3" ∷ [])
    ∷ (
      codes "thu",
      codes "thu"
          ∷ codes "thur"
          ∷ codes "thurs"
          ∷ codes "thursday"
          ∷ codes "donnerstag"
          ∷ codes "4"
          ∷ [],
    )
    ∷ (codes "fri", codes "fri" ∷ codes "friday" ∷ codes "freitag" ∷ codes "5" ∷ [])
    ∷ (codes "sat", codes "sat" ∷ codes "saturday" ∷ codes "samstag" ∷ codes "6" ∷ [])
    ∷ (codes "sun", codes "sun" ∷ codes "sunday" ∷ codes "sonntag" ∷ codes "0" ∷ codes "7" ∷ [])
    ∷ []

abbrev pub has : Text → List Text → Bool
has t = any_of (λ x. text_eq x t)

unfoldable pub find_day : Text → List (Text × List Text) → Option Text
find_day word [] = none
find_day word ((day, words) ∷ more) =
    let rest = find_day word more in if has word words then some day else rest

-- strings.Split at a comma
unfoldable pub split_comma : Text → List Text
split_comma [] = [] ∷ []
split_comma (c ∷ cs) = join_first c (split_comma cs)
  where
    join_first : ℕ → List Text → List Text
    join_first c [] = (c ∷ []) ∷ []
    join_first c (part ∷ parts) = if c == b',' then [] ∷ part ∷ parts else (c ∷ part) ∷ parts

-- The days of the parts, each once, in the order of the parts; an unknown word is an error.
abbrev pub add_day : Option Text → List Text → (List Text → Option (List Text)) → Option (List Text)
add_day none out rest = none
add_day (some day) out rest = if has day out then rest out else rest (out ++ (day ∷ []))

unfoldable pub days_of : List Text → List Text → Option (List Text)
days_of [] out = some out
days_of (part ∷ parts) out = add_day (find_day (to_lower (trim part)) day_alias) out (days_of parts)

unfoldable pub index_in : Text → List Text → ℕ
index_in day [] = 0
index_in day (d ∷ ds) = let rest = index_in day ds in if text_eq d day then 0 else suc rest

unfoldable pub index_of : Text → ℕ
index_of day = index_in day weekdays

unfoldable pub insert_day : Text → List Text → List Text
insert_day day [] = day ∷ []
insert_day day (d ∷ ds) =
    let rest = insert_day day ds in
    if ltb (index_of d) (index_of day) then d ∷ rest else day ∷ d ∷ ds

unfoldable pub sort_days : List Text → List Text
sort_days [] = []
sort_days (d ∷ ds) = insert_day d (sort_days ds)

abbrev pub sorted_days : Option (List Text) → Option (List Text)
sorted_days none = none
sorted_days (some out) = some (sort_days out)

-- ParseDays
unfoldable pub parse_days : Text → Option (List Text)
parse_days s =
    if text_eq (trim s) [] then some weekdays else sorted_days (days_of (split_comma s) [])

unfoldable pub is_due : Habit → Text → Bool
is_due h day = text_list_empty h.days || has day h.days
  where
    text_list_empty : List Text → Bool
    text_list_empty [] = true
    text_list_empty (d ∷ ds) = false

unfoldable pub done_on : Habit → Text → Bool
done_on h date = has date h.done

unfoldable pub insert_text : Text → List Text → List Text
insert_text t [] = t ∷ []
insert_text t (x ∷ xs) =
    let rest = insert_text t xs in if text_ltb x t then x ∷ rest else t ∷ x ∷ xs

unfoldable pub sort_texts : List Text → List Text
sort_texts [] = []
sort_texts (x ∷ xs) = insert_text x (sort_texts xs)

unfoldable pub complete : Text → Habit → Habit
complete date h =
    if done_on h date then h else record h { done = sort_texts (h.done ++ (date ∷ [])) }

unfoldable pub uncomplete : Text → Habit → Habit
uncomplete date h = record h { done = select (λ d. not (text_eq d date)) h.done }

-- What Find gives: a habit, or which habits it could be, by name.
pub data Found : Type 0 where
  found : Habit → Found
  which_habit no_habit : Found
  could_be : List Text → Found

-- strings.Contains, of a text that is not empty
abbrev pub contains : Text → Text → Bool
contains want s = is_cut (cut want s)
  where
    is_cut : Option (Text × Text) → Bool
    is_cut none = false
    is_cut (some parts) = true

unfoldable pub is_meant : Text → Text → Habit → Bool
is_meant what want h =
    equal_fold h.id what || has_prefix want (to_lower h.id) || equal_fold h.name what

unfoldable pub loosely : Text → List Habit → List Habit
loosely want = select (λ h. contains want (to_lower h.name))

abbrev pub or_loosely : Text → List Habit → List Habit → List Habit
or_loosely want habits [] = loosely want habits
or_loosely want habits (h ∷ hits) = h ∷ hits

unfoldable pub answer : List Habit → Found
answer [] = no_habit
answer (h ∷ []) = found h
answer (h ∷ g ∷ hits) = could_be (map (λ (x : Habit). x.name) (h ∷ g ∷ hits))

-- Bag.Find
unfoldable pub find : Text → List Habit → Found
find what habits =
    let want = to_lower (trim what) in
    if text_eq want []
    then which_habit
    else answer (or_loosely want habits (select (is_meant what want) habits))

-- A day, by the name of its weekday and its date.
pub record Day : Type 0 where
  pub weekday : Text
  pub date : Text

-- The loop of Streak over the days from the i-th before `on`, with the streak so far; `back` is
-- AddDate with DayOf and Format.
unfoldable pub streak_from : Habit → (ℕ → Day) → ℕ → ℕ → ℕ → ℕ
streak_from h back zero i streak = streak
streak_from h back (suc left) i streak =
    let due = is_due h (back i).weekday in
    let done = done_on h (back i).date in
    let rest = streak_from h back left (suc i) (if due && done then suc streak else streak) in
    if due && not done && not (i == 0) then streak else rest

unfoldable pub streak : Habit → (ℕ → Day) → ℕ
streak h back = streak_from h back 366 0 0
