-- ===== src/Prelude/Trimmed.antt =====
-- Texts without white space at their ends.
use mathlib.Core.List.{reverse, reverse-append, reverse-reverse}
use mailbox_cli.Prelude.{
  ℕ, ◌≡◌, refl, Bool, true, false, not, [], ◌∷◌, ◌++◌, Text, is_space, drop_space, trim, arith, mem,
  none, some,
}
use mailbox_cli.Prelude.Cuts.{cut_last}

abbrev pub starts_black : Text → Bool
starts_black [] = true
starts_black (c ∷ s) = not (is_space c)

-- No white space at either end.
abbrev pub IsTrimmed : Text → Type 0
IsTrimmed s = (starts_black s ≡ true) × (starts_black (reverse s) ≡ true)

drop_space_black : (s : Text) → starts_black s ≡ true → drop_space s ≡ s
drop_space_black [] h = refl
drop_space_black (c ∷ s) h = ground (arith, h)

pub trim-IsTrimmed : (s : Text) → IsTrimmed s → trim s ≡ s
unfolding trim
trim-IsTrimmed s (first, last) =
    rw (drop_space_black s first, drop_space_black (reverse s) last) (reverse-reverse s)

-- A text before a last character that is no white space.
pub last-IsTrimmed :
    (s : Text) (x : ℕ)
    → starts_black (s ++ x ∷ []) ≡ true
    → is_space x ≡ false
    → IsTrimmed (s ++ x ∷ [])
last-IsTrimmed s x h e = (h, rw (reverse-append s (x ∷ [])) (ground (arith, e)))

pub cut_last_none : (p : ℕ) (t : Text) → mem p t ≡ false → cut_last p t ≡ none
cut_last_none p [] h = refl
cut_last_none p (x ∷ t) h = ground (arith, h, cut_last_none p t)

-- A text is cut at the last separator.
pub cut_last-append :
    (p : ℕ) (s t : Text) → mem p t ≡ false → cut_last p (s ++ (p ∷ t)) ≡ some (s, t)
cut_last-append p [] t h = ground (arith, cut_last_none p t h)
cut_last-append p (x ∷ s) t h = ground (arith, cut_last-append p s t h)
