-- ===== src/Prelude/Numerals.antt =====
-- strconv's reading of decimal digits, and that it reads what %d prints.
use mathlib.Core.List.{append_assoc, append-nil}
use mailbox_cli.Prelude.{
  ℕ, zero, suc, ◌+◌, ◌*◌, ◌/◌, ◌%◌, ◌-◌, ◌<◌, ◌≤◌, ◌≡◌, refl, sym, ap, ◌∙◌, Bool, true, false, ◌&&◌,
  Option, none, some, [], ◌∷◌, ◌++◌, Text, arith, mem, mem-append, ltb, leb, is_space,
  if◌then◌else◌, inl, inr, Bool-cases,
}
use mailbox_cli.Prelude.Decimal.{digits, decimal}

abbrev pub is_digit : ℕ → Bool
is_digit c = leb 48 c && leb c 57

abbrev pub parse_from : ℕ → Text → Option ℕ
parse_from acc [] = some acc
parse_from acc (c ∷ cs) =
    let rest = parse_from (acc * 10 + (c - 48)) cs in if is_digit c then rest else none

abbrev pub parse_digits : Text → Option ℕ
parse_digits [] = none
parse_digits (c ∷ cs) = parse_from 0 (c ∷ cs)

abbrev below : ℕ → Option ℕ → Option ℕ
below bound none = none
below bound (some n) = if ltb n bound then some n else none

-- ParseUint(s, 10, bits), for 2 to the bits; an error is `none`.
unfoldable pub parse_uint : ℕ → Text → Option ℕ
parse_uint bound s = below bound (parse_digits s)

parse_from-digit :
    (acc n : ℕ) (rest : Text)
    → n < 10
    → parse_from acc ((48 + n) ∷ rest) ≡ parse_from (acc * 10 + n) rest
parse_from-digit acc n rest h = rw (digit, value) refl
  where
    digit : is_digit (48 + n) ≡ true
    digit = ground (arith, h)

    value : (48 + n) - 48 ≡ n
    value = omega arith

small : (n : ℕ) → ltb n 10 ≡ true → n < 10
small n e = ground (arith, e)

large : (n : ℕ) → ltb n 10 ≡ false → 10 ≤ n
large n e = ground (arith, e)

quotient_below : (n fuel : ℕ) → 10 ≤ n → n < suc fuel → n / 10 < fuel
quotient_below n fuel l h = omega (arith, l, h)

parse_from-digits :
    (fuel n : ℕ) (rest : Text) → n < fuel → parse_from 0 (digits fuel n ++ rest) ≡ parse_from n rest
unfolding digits
parse_from-digits zero n rest h = absurd (omega (arith, h))
parse_from-digits (suc fuel) n rest h = elim (Bool-cases (ltb n 10)) [
  | inl e ↦ rw e (parse_from-digit 0 n rest (small n e) ∙ ap (λ k. parse_from k rest) (omega arith))
  | inr e ↦ rw e (
      ap (parse_from 0) (append_assoc (digits fuel (n / 10)) ((48 + n % 10) ∷ []) rest)
      ∙ parse_from-digits fuel (n / 10) ((48 + n % 10) ∷ rest) (quotient_below n fuel (large n e) h)
      ∙ parse_from-digit (n / 10) (n % 10) rest (omega arith)
      ∙ ap (λ k. parse_from k rest) (omega arith))
]

digit_space : (n : ℕ) → n < 10 → is_space (48 + n) ≡ false
digit_space n h = ground (arith, h)

-- What is printed is some text before a last digit.
digits_last :
    (fuel n : ℕ)
    → (front : Text) × (last : ℕ) × (digits (suc fuel) n ≡ front ++ last ∷ [])
      × (is_space last ≡ false)
unfolding digits
digits_last fuel n = elim (Bool-cases (ltb n 10)) [
  | inl e ↦ rw e ([], 48 + n, refl, digit_space n (small n e))
  | inr e ↦ rw e (digits fuel (n / 10), 48 + n % 10, refl, digit_space (n % 10) (omega arith))
]

pub decimal_last :
    (n : ℕ)
    → (front : Text) × (last : ℕ) × (decimal n ≡ front ++ last ∷ []) × (is_space last ≡ false)
unfolding decimal
decimal_last n = digits_last n n

-- What is printed starts with a digit.
digits_first :
    (fuel n : ℕ)
    → n < fuel
    → (first : ℕ) × (rest : Text) × (digits fuel n ≡ first ∷ rest) × (is_space first ≡ false)
unfolding digits
digits_first zero n h = absurd (omega (arith, h))
digits_first (suc fuel) n h = elim (Bool-cases (ltb n 10)) [
  | inl e ↦ rw e (48 + n, [], refl, digit_space n (small n e))
  | inr e ↦
      let (first, rest, q, space) =
        digits_first fuel (n / 10) (quotient_below n fuel (large n e) h) in
      rw (e, q) (first, rest ++ (48 + n % 10) ∷ [], refl, space)
]

pub decimal_first :
    (n : ℕ) → (first : ℕ) × (rest : Text) × (decimal n ≡ first ∷ rest) × (is_space first ≡ false)
unfolding decimal
decimal_first n = digits_first (suc n) n (omega arith)

mem-digits : (c fuel n : ℕ) → is_digit c ≡ false → mem c (digits fuel n) ≡ false
unfolding digits
mem-digits c zero n h = refl
mem-digits c (suc fuel) n h = elim (Bool-cases (ltb n 10)) [
  | inl e ↦ rw e (ground (arith, h, small n e))
  | inr e ↦ rw e (
      mem-append c (digits fuel (n / 10)) ((48 + n % 10) ∷ [])
      ∙ rw (mem-digits c fuel (n / 10) h) (one (n % 10) (omega arith)))
]
  where
    one : (m : ℕ) → m < 10 → mem c ((48 + m) ∷ []) ≡ false
    one m e = ground (arith, h, e)

-- A code that is not a digit is not in what is printed.
pub mem-decimal : (c n : ℕ) → is_digit c ≡ false → mem c (decimal n) ≡ false
unfolding decimal
mem-decimal c n h = mem-digits c (suc n) n h

parse_digits-from :
    (s : Text) (n : ℕ) (front : Text) (last : ℕ)
    → s ≡ front ++ last ∷ []
    → parse_from 0 s ≡ some n
    → parse_digits s ≡ some n
parse_digits-from [] n [] last e h = cc
parse_digits-from [] n (x ∷ front) last e h = cc
parse_digits-from (c ∷ s) n front last e h = h

-- A number below the bound is read as it is printed.
pub parse_uint-decimal : (bound n : ℕ) → n < bound → parse_uint bound (decimal n) ≡ some n
unfolding parse_uint decimal
parse_uint-decimal bound n h =
    let (front, last, e, space) = digits_last n n in
    rw
      (parse_digits-from (digits (suc n) n) n front last e (
        ap (parse_from 0) (sym (append-nil (digits (suc n) n)))
        ∙ parse_from-digits (suc n) n [] (omega arith)))
      (ground (arith, h))
