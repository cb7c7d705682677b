-- ===== src/Prelude/TextOrder.antt =====
-- The order of texts is a strict and total one.
use mailbox_cli.Prelude.{
  ◌≡◌, refl, sym, ◌∙◌, ap, true, false, [], ◌∷◌, Text, text_eq, text_eq_iff, text_ltb, arith,
  Bool-cases, inl, inr,
}

pub text_ltb_irrefl : (a : Text) → text_ltb a a ≡ false
unfolding text_ltb
text_ltb_irrefl [] = refl
text_ltb_irrefl (x ∷ a) = ground (arith, text_ltb_irrefl a)

pub text_ltb_trans :
    (a b c : Text) → text_ltb a b ≡ true → text_ltb b c ≡ true → text_ltb a c ≡ true
unfolding text_ltb
text_ltb_trans [] [] c h k = absurd (ground (arith, h))
text_ltb_trans (x ∷ a) [] c h k = absurd (ground (arith, h))
text_ltb_trans [] (y ∷ b) [] h k = k
text_ltb_trans (x ∷ a) (y ∷ b) [] h k = absurd (ground (arith, k))
text_ltb_trans [] (y ∷ b) (z ∷ c) h k = refl
text_ltb_trans (x ∷ a) (y ∷ b) (z ∷ c) h k = ground (arith, h, k, text_ltb_trans a b c)

pub text_ltb_total : (a b : Text) → text_eq a b ≡ false → text_ltb a b ≡ false → text_ltb b a ≡ true
unfolding text_ltb
text_ltb_total [] [] h k = cc
text_ltb_total [] (y ∷ b) h k = cc
text_ltb_total (x ∷ a) [] h k = refl
text_ltb_total (x ∷ a) (y ∷ b) h k = ground (arith, h, k, text_ltb_total a b)

-- A text that comes before another is not it.
pub text_ltb_apart : (a b : Text) → text_ltb a b ≡ true → text_eq a b ≡ false
text_ltb_apart a b h = elim (Bool-cases (text_eq a b)) [
  | inl e ↦
      let same = (text_eq_iff a b).0 e in
      let no : true ≡ false = sym h ∙ sym (ap (text_ltb a) same) ∙ text_ltb_irrefl a in cc
  | inr e ↦ e
]
