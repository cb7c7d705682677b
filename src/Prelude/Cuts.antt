-- ===== src/Prelude/Cuts.antt =====
-- Texts cut at a separator, with HasPrefix, CutPrefix, Index, LastIndex and EqualFold of Go's strings
-- package. A separator is not empty.
use mailbox_cli.Prelude.{
  ◌≡◌, refl, ◌++◌, arith, mem, ℕ, Bool, true, false, Option, none, some, [], ◌∷◌, ◌==◌,
  if◌then◌else◌, Text, text_eq, to_lower,
}

abbrev pub strip_prefix : Text → Text → Option Text
strip_prefix [] s = some s
strip_prefix (p ∷ ps) [] = none
strip_prefix (p ∷ ps) (x ∷ s) = let rest = strip_prefix ps s in if p == x then rest else none

abbrev is_some : Option Text → Bool
is_some none = false
is_some (some t) = true

abbrev pub has_prefix : Text → Text → Bool
has_prefix p s = is_some (strip_prefix p s)

abbrev pub cut_here : ℕ → Option Text → Option (Text × Text) → Option (Text × Text)
cut_here x (some rest) later = some ([], rest)
cut_here x none none = none
cut_here x none (some (before, rest)) = some (x ∷ before, rest)

abbrev pub cut : Text → Text → Option (Text × Text)
cut sep [] = none
cut sep (x ∷ s) = cut_here x (strip_prefix sep (x ∷ s)) (cut sep s)

-- Both sides of the last occurrence of a code.
abbrev pub cut_last : ℕ → Text → Option (Text × Text)
cut_last p [] = none
cut_last p (x ∷ s) = cut_later p x s (cut_last p s)
  where
    cut_later : ℕ → ℕ → Text → Option (Text × Text) → Option (Text × Text)
    cut_later p x s (some (a, b)) = some (x ∷ a, b)
    cut_later p x s none = if x == p then some ([], s) else none

-- strings.EqualFold
unfoldable pub equal_fold : Text → Text → Bool
equal_fold a b = text_eq (to_lower a) (to_lower b)

strip_prefix-append : (p s : Text) → strip_prefix p (p ++ s) ≡ some s
strip_prefix-append [] s = refl
strip_prefix-append (x ∷ p) s = ground (arith, strip_prefix-append p s)

-- A text is cut at the first separator, if the part before it does not have the separator's first
-- code.
pub cut_first :
    (p : ℕ) (sep s rest : Text)
    → mem p s ≡ false
    → cut (p ∷ sep) (s ++ (p ∷ (sep ++ rest))) ≡ some (s, rest)
cut_first p sep [] rest h = ground (arith, strip_prefix-append sep rest)
cut_first p sep (x ∷ s) rest h = ground (arith, h, cut_first p sep s rest)

-- A text without a separator's first code is not cut.
pub cut_none : (p : ℕ) (sep s : Text) → mem p s ≡ false → cut (p ∷ sep) s ≡ none
cut_none p sep [] h = refl
cut_none p sep (x ∷ s) h = ground (arith, h, cut_none p sep s)
