-- ===== src/Bubble/ReadTimes.antt =====
-- internal/bubble/bubble.go: an instant that is read from a keyword is one of the calendar.
use mailbox_cli.Prelude.{
  ℕ, ◌+◌, ◌-◌, ◌*◌, ◌<◌, ◌≤◌, ◌≡◌, refl, ap, ◌∙◌, sym, Bool, true, false, ◌&&◌, Option, none, some,
  List, [], ◌∷◌, Text, arith, if◌then◌else◌, Bool-cases, inl, inr, Option-cases, subst, ◌≢◌,
}
use mailbox_cli.Prelude.Numerals.{is_digit}
use mailbox_cli.Prelude.Cuts.{strip_prefix}
use mailbox_cli.Clock.Calendar.{Time, in_range}
use mailbox_cli.Clock.Layout.{
  Chunk, get_num, get_year, skip_sign, skip_blank, read_chunk, parse_from, parse, unsaid, ◌>>=◌,
}
use mailbox_cli.Clock.Printed.{IsClock}
use mailbox_cli.Bubble.Keyword.{
  prefix, keyword_layout, parse_keyword, parse_rest, first_of, return_time,
}

digit_bound : (a : ℕ) → is_digit a ≡ true → a - 48 ≤ 9
digit_bound a h = ground (arith, h)

both : (a b : Bool) → (a && b) ≡ true → (a ≡ true) × (b ≡ true)
both true b h = (refl, h)
both false b h = cc

guarded :
    (b : Bool) (v : ℕ) (s : Text) (x : ℕ × Text)
    → (if b then some (v, s) else none) ≡ some x
    → (b ≡ true) × (v ≡ x.0)
guarded true v s x h = (refl, cc)
guarded false v s x h = cc

year_bound : (a b c d : ℕ) → a ≤ 9 → b ≤ 9 → c ≤ 9 → d ≤ 9 → a * 1000 + b * 100 + c * 10 + d < 10000
year_bound a b c d h i j k = omega arith

get_year_bound : (s : Text) (x : ℕ × Text) → get_year s ≡ some x → x.0 < 10000
unfolding get_year
get_year_bound [] x h = cc
get_year_bound (a ∷ []) x h = cc
get_year_bound (a ∷ b ∷ []) x h = cc
get_year_bound (a ∷ b ∷ c ∷ []) x h = cc
get_year_bound (a ∷ b ∷ c ∷ d ∷ s) x h =
    let value_of = (a - 48) * 1000 + (b - 48) * 100 + (c - 48) * 10 + (d - 48) in
    let all = is_digit a && is_digit b && is_digit c && is_digit d in
    let taken : (if all then some (value_of, s) else none) ≡ some x = h in
    let (digits, value) = guarded all value_of s x taken in
    let (more, t) = both (is_digit a && is_digit b && is_digit c) (is_digit d) digits in
    let (more2, r) = both (is_digit a && is_digit b) (is_digit c) more in
    let (p, q) = both (is_digit a) (is_digit b) more2 in
    subst (λ v. v < 10000) value
      (year_bound (a - 48) (b - 48) (c - 48) (d - 48) (digit_bound a p) (digit_bound b q)
        (digit_bound c r) (digit_bound d t))

-- What is read by one part of a layout keeps the year below 10000.
module _ (r r' : Time) (s' : Text) where
  sets_year :
      (o : Option (ℕ × Text))
      → ((x : ℕ × Text) → o ≡ some x → x.0 < 10000)
      → (◌>>=◌ {B = Time × Text} o (λ x. some (record r { year = x.0 }, x.1))) ≡ some (r', s')
      → r'.year < 10000
  sets_year none k h = cc
  sets_year (some x) k h = ground (arith, h, k x refl)

  keeps_year :
      {A : Type 0} (f : A → Time) (g : A → Text) (o : Option A)
      → ((x : A) → (f x).year ≡ r.year)
      → (◌>>=◌ {B = Time × Text} o (λ x. some (f x, g x))) ≡ some (r', s')
      → r.year < 10000
      → r'.year < 10000
  keeps_year f g none same h b = cc
  keeps_year f g (some x) same h b = ground (arith, h, same x, b)

read_chunk_year :
    (c : Chunk) (r : Time) (s : Text) (r' : Time) (s' : Text)
    → read_chunk c r s ≡ some (r', s')
    → r.year < 10000
    → r'.year < 10000
unfolding read_chunk
read_chunk_year Chunk.long_year r s r' s' h b = sets_year r r' s' (get_year s) (get_year_bound s) h
read_chunk_year Chunk.zero_month r s r' s' h b =
    keeps_year r r' s' _ _ (get_num true s) (λ x. refl) h b
read_chunk_year Chunk.zero_day r s r' s' h b =
    keeps_year r r' s' _ _ (get_num true s) (λ x. refl) h b
read_chunk_year Chunk.hour24 r s r' s' h b =
    keeps_year r r' s' _ _ (get_num false s) (λ x. refl) h b
read_chunk_year Chunk.zero_minute r s r' s' h b =
    keeps_year r r' s' _ _ (get_num true s) (λ x. refl) h b
read_chunk_year Chunk.zero_second r s r' s' h b =
    keeps_year r r' s' _ _ (get_num true s) (λ x. refl) h b
read_chunk_year Chunk.blank r s r' s' h b = keeps_year r r' s' _ _ (skip_blank s) (λ x. refl) h b
read_chunk_year (Chunk.sign c) r s r' s' h b =
    keeps_year r r' s' _ _ (skip_sign c s) (λ x. refl) h b

continues :
    (P : Time → Type 0) (o : Option (Time × Text)) (next : Time × Text → Option Time) (t : Time)
    → ((x : Time × Text) → o ≡ some x → next x ≡ some t → P t)
    → (◌>>=◌ {B = Time} o next) ≡ some t
    → P t
continues P none next t k h = absurd (ground (arith, h))
continues P (some x) next t k h = k x refl h

-- A time that is read has fields in their ranges, and a year of four digits.
parse_from-IsClock :
    (cs : List Chunk) (r : Time) (s : Text) (t : Time)
    → parse_from cs r s ≡ some t
    → r.year < 10000
    → IsClock t
unfolding parse_from
parse_from-IsClock [] r [] t h b = elim (Bool-cases (in_range r)) [
  | inl e ↦
      let same : r ≡ t = ground (arith, h, e) in
      subst IsClock same (record { ranges = e; four_digits = b })
  | inr e ↦ ground (arith, h, e)
]
parse_from-IsClock [] r (x ∷ s) t h b = cc
parse_from-IsClock (c ∷ cs) r s t h b =
    continues IsClock (read_chunk c r s) (λ x. parse_from cs x.0 x.1) t
      (λ x e g. parse_from-IsClock cs x.0 x.1 t g (read_chunk_year c r s x.0 x.1 e b)) h

pub parse_keyword-IsClock : (k : Text) (t : Time) → parse_keyword k ≡ some t → IsClock t
unfolding parse_keyword parse
parse_keyword-IsClock k t h = elim (Option-cases (strip_prefix prefix k)) [
  | inl e ↦ absurd (none_some t (sym (ap parse_rest e) ∙ h))
  | inr (s, e) ↦
      parse_from-IsClock keyword_layout unsaid s t (sym (ap parse_rest e) ∙ h) (omega arith)
]
  where
    none_some : (t : Time) → none ≢ some t
    none_some t e = cc

pub return_time-IsClock : (flags : List Text) (t : Time) → return_time flags ≡ some t → IsClock t
unfolding return_time
return_time-IsClock [] t h = absurd (ground (arith, h))
return_time-IsClock (f ∷ flags) t h = elim (Option-cases (parse_keyword f)) [
  | inl e ↦ return_time-IsClock flags t (sym (ap (λ o. first_of o (return_time flags)) e) ∙ h)
  | inr (u, e) ↦
      parse_keyword-IsClock f t (e ∙ sym (ap (λ o. first_of o (return_time flags)) e) ∙ h)
]
