-- ===== src/Bubble/InOrder.antt =====
-- internal/bubble/bubble.go: the texts of the column bubble_at are ordered as the instants are.
use mailbox_cli.Prelude.{
  ℕ, ◌/◌, ◌%◌, ◌<◌, ◌≡◌, ap, ◌∙◌, Bool, lt→ltb, [], ◌∷◌, ◌++◌, Text, arith, ltb, text_ltb,
}
use mailbox_cli.Clock.Calendar.{Time, minutes}
use mailbox_cli.Clock.Layout.{two, year_text, format, chunk_text}
use mailbox_cli.Clock.Printed.{IsClock, month_below, day_below, hour_below, minute_below}
use mailbox_cli.Clock.Ordered.{first_then, comes_before-minutes}
use mailbox_cli.Bubble.Keyword.{projection_layout}

text_ltb-two :
    (x y : ℕ) (s t : Text)
    → x < 100
    → y < 100
    → text_ltb (two x ++ s) (two y ++ t) ≡ first_then x y (text_ltb s t)
unfolding text_ltb
text_ltb-two x y s t h k = ground arith

text_ltb-sign : (c : ℕ) (s t : Text) → text_ltb (c ∷ s) (c ∷ t) ≡ text_ltb s t
unfolding text_ltb
text_ltb-sign c s t = ground arith

year_text-two : (y : ℕ) → y < 10000 → year_text y ≡ two (y / 100) ++ two (y % 100)
unfolding year_text
year_text-two y h = rw (lt→ltb y 10000 h) (ground arith)

in_halves :
    (x y : ℕ) (b : Bool)
    → first_then (x / 100) (y / 100) (first_then (x % 100) (y % 100) b) ≡ first_then x y b
in_halves x y b = ground arith

text_ltb-year_text :
    (x y : ℕ) (s t : Text)
    → x < 10000
    → y < 10000
    → text_ltb (year_text x ++ s) (year_text y ++ t) ≡ first_then x y (text_ltb s t)
text_ltb-year_text x y s t h k =
    rw (year_text-two x h, year_text-two y k)
      (text_ltb-two (x / 100) (y / 100) (two (x % 100) ++ s) (two (y % 100) ++ t) (omega arith)
          (omega arith)
        ∙ ap (first_then (x / 100) (y / 100))
            (text_ltb-two (x % 100) (y % 100) s t (omega arith) (omega arith))
        ∙ in_halves x y (text_ltb s t))

alone : (x y : ℕ) → first_then x y (text_ltb [] []) ≡ ltb x y
unfolding text_ltb
alone x y = ground arith

-- If two times are in their ranges, and their years have four digits, then the texts of the column
-- bubble_at are ordered as the instants are, to the minute.
pub text_ltb-format :
    (a b : Time)
    → IsClock a
    → IsClock b
    → text_ltb (format projection_layout a) (format projection_layout b)
      ≡ ltb (minutes a) (minutes b)
unfolding format chunk_text
text_ltb-format a b c d =
    text_ltb-year_text a.year b.year _ _ c.four_digits d.four_digits
    ∙ ap (first_then a.year b.year) (
        text_ltb-sign b'-' _ _
        ∙ text_ltb-two a.month b.month _ _ (month_below a c) (month_below b d)
        ∙ ap (first_then a.month b.month) (
            text_ltb-sign b'-' _ _
            ∙ text_ltb-two a.day b.day _ _ (day_below a c) (day_below b d)
            ∙ ap (first_then a.day b.day) (
                text_ltb-sign b'T' _ _
                ∙ text_ltb-two a.hour b.hour _ _ (hour_below a c) (hour_below b d)
                ∙ ap (first_then a.hour b.hour) (
                    text_ltb-sign b':' _ _
                    ∙ text_ltb-two a.minute b.minute [] [] (minute_below a c) (minute_below b d)
                    ∙ alone a.minute b.minute))))
    ∙ comes_before-minutes a b c.ranges d.ranges
