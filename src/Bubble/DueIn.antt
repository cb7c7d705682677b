-- ===== src/Bubble/DueIn.antt =====
-- internal/mirror/bubble.go: which placements are due, in the terms of their flags.
use mailbox_cli.Prelude.{
  ℕ, ◌≡◌, refl, ◌∙◌, Bool, true, false, ◌&&◌, ◌||◌, not, Option, none, some, List, [], ◌∷◌, map,
  Text, text_eq, arith, ltb, leb, ◌==◌, if◌then◌else◌, any_of, Bool-cases, inl, inr, lt→ltb,
}
use mailbox_cli.Mirror.Types.{Message, Placement, Mirror}
use mailbox_cli.Mirror.Tx.{sits_at}
use mailbox_cli.Clock.Calendar.{Time, minutes}
use mailbox_cli.Clock.Layout.{format, chunk_text, year_text}
use mailbox_cli.Clock.Printed.{IsClock}
use mailbox_cli.Bubble.Keyword.{projection_layout, return_time, in_projection, projected}
use mailbox_cli.Bubble.InOrder.{text_ltb-format}
use mailbox_cli.Bubble.ReadTimes.{return_time-IsClock}
use mailbox_cli.Bubble.Due.{
  BubbleRef, Row, joined, row_of, selects, and_row, rows_of, row_before, insert_row, sort_rows,
  bubbles_due,
}

-- A return time that is not after another time.
abbrev pub has_passed : Time → Option Time → Bool
has_passed now none = false
has_passed now (some t) = leb (minutes t) (minutes now)

abbrev pub is_message : Option Message → Bool
is_message none = false
is_message (some m) = true

-- A placement at a folder and uid, of a mail that is there, that is due.
abbrev pub is_due_at : Text → ℕ → Time → List Message → Placement → Bool
is_due_at f u now ms p =
    sits_at f u p && (is_message (joined p.message_id ms) && has_passed now (return_time p.flags))

abbrev pub names : Text → ℕ → BubbleRef → Bool
names f u b = text_eq b.folder f && b.uid == u

any_of-map :
    (q : BubbleRef → Bool) (rows : List Row)
    → any_of q (map (λ (r : Row). r.ref) rows) ≡ any_of (λ (r : Row). q r.ref) rows
any_of-map q [] = refl
any_of-map q (r ∷ rows) = rw (any_of-map q rows) refl

any_of-insert_row :
    (q : Row → Bool) (x : Row) (ys : List Row) → any_of q (insert_row x ys) ≡ (q x || any_of q ys)
unfolding insert_row
any_of-insert_row q x [] = refl
any_of-insert_row q x (y ∷ ys) = elim (Bool-cases (row_before x y)) [
  | inl e ↦ rw e refl
  | inr e ↦ rw (e, any_of-insert_row q x ys) (swapped (q y) (q x) (any_of q ys))
]
  where
    swapped : (a b c : Bool) → (a || (b || c)) ≡ (b || (a || c))
    swapped true true c = refl
    swapped true false c = refl
    swapped false b c = refl

any_of-sort_rows : (q : Row → Bool) (rows : List Row) → any_of q (sort_rows rows) ≡ any_of q rows
unfolding sort_rows
any_of-sort_rows q [] = refl
any_of-sort_rows q (x ∷ xs) = any_of-insert_row q x (sort_rows xs) ∙ rw (any_of-sort_rows q xs) refl

format_some : (t : Time) → IsClock t → text_eq (format projection_layout t) [] ≡ false
unfolding format chunk_text year_text
format_some t c = rw (lt→ltb t.year 10000 c.four_digits) refl

selects_due :
    (now t : Time) (p : Placement)
    → IsClock now
    → IsClock t
    → selects [] (format projection_layout now) p (format projection_layout t)
      ≡ leb (minutes t) (minutes now)
unfolding selects
selects_due now t p c d =
    rw (format_some now c, text_ltb-format now t c d) (flipped (minutes now) (minutes t))
  where
    flipped : (a b : ℕ) → not (ltb a b) ≡ leb b a
    flipped a b = ground arith

and_false : (b : Bool) → (b && false) ≡ false
and_false true = refl
and_false false = refl

and_true : (b : Bool) → (b && true) ≡ b
and_true true = refl
and_true false = refl

any_of-and_row :
    (f : Text) (u : ℕ) (now : Time) (p : Placement) (o : Option Message) (r : Option Time)
    (rows : List Row)
    → IsClock now
    → ((t : Time) → r ≡ some t → IsClock t)
    → any_of
        (λ (x : Row). names f u x.ref)
        (and_row [] (format projection_layout now) p o (in_projection r) rows)
      ≡ ((sits_at f u p && (is_message o && has_passed now r))
          || any_of (λ (x : Row). names f u x.ref) rows)
unfolding row_of
any_of-and_row f u now p none r rows c k = rw (and_false (sits_at f u p)) refl
any_of-and_row f u now p (some m) none rows c k = rw (and_false (sits_at f u p)) refl
any_of-and_row f u now p (some m) (some t) rows c k =
    rw (selects_due now t p c (k t refl)) (taken (leb (minutes t) (minutes now)))
  where
    taken :
        (b : Bool)
        → any_of
            (λ (x : Row). names f u x.ref)
            (if b then row_of p m (format projection_layout t) ∷ rows else rows)
          ≡ ((sits_at f u p && b) || any_of (λ (x : Row). names f u x.ref) rows)
    taken true = rw (and_true (sits_at f u p)) refl
    taken false = rw (and_false (sits_at f u p)) refl

any_of-rows_of :
    (f : Text) (u : ℕ) (now : Time) (ms : List Message) (ps : List Placement)
    → IsClock now
    → any_of (λ (x : Row). names f u x.ref) (rows_of [] (format projection_layout now) ms ps)
      ≡ any_of (is_due_at f u now ms) ps
unfolding rows_of projected
any_of-rows_of f u now ms [] c = refl
any_of-rows_of f u now ms (p ∷ ps) c =
    any_of-and_row f u now p (joined p.message_id ms) (return_time p.flags)
      (rows_of [] (format projection_layout now) ms ps) c (return_time-IsClock p.flags)
    ∙ rw (any_of-rows_of f u now ms ps c) refl

-- If the time now is in its ranges, with a year of four digits, then the scan lists a folder and uid exactly when a
-- placement there is of a mail that the Mirror has, and its flags name an instant that is not after now,
-- to the minute.
pub bubbles_due_iff :
    (f : Text) (u : ℕ) (now : Time) (m : Mirror)
    → IsClock now
    → any_of (names f u) (bubbles_due now m) ≡ any_of (is_due_at f u now m.messages) m.placements
unfolding bubbles_due
bubbles_due_iff f u now m c =
    any_of-map (names f u) _
    ∙ any_of-sort_rows (λ (x : Row). names f u x.ref) _
    ∙ any_of-rows_of f u now m.messages m.placements c
