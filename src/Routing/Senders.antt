-- ===== src/Routing/Senders.antt =====
-- internal/graphdrv/rules.go: how a decision about a domain is asked of a sender.
use mailbox_cli.Prelude.{
  ◌≡◌, refl, true, false, Bool, ◌||◌, Option, none, some, [], ◌∷◌, Text, text_eq, arith,
  if◌then◌else◌, ◌==◌,
}
use mailbox_cli.Prelude.Cuts.{has_prefix}
use mailbox_cli.Routing.Lists.{after_at}

-- What a rule looks for in the address of a sender, for a domain.
unfoldable pub sender_contains : Text → Text
sender_contains d = b'@' ∷ d

-- A text stands somewhere in another.
abbrev pub stands_in : Text → Text → Bool
stands_in s [] = text_eq s []
stands_in s (c ∷ a) = has_prefix s (c ∷ a) || stands_in s a

-- A server that looks for the text anywhere in the address, as Graph does.
abbrev pub by_text : Text → Text → Bool
by_text a d = stands_in (sender_contains d) a

prefix_refl : (s : Text) → has_prefix s s ≡ true
prefix_refl [] = refl
prefix_refl (c ∷ s) = ground (arith, prefix_refl s)

-- What is found after the last @ stands in the address behind an @.
pub after_at-stands_in : (s a : Text) → after_at a ≡ some s → stands_in (b'@' ∷ s) a ≡ true
unfolding after_at
after_at-stands_in s [] h = cc
after_at-stands_in s (c ∷ a) h = by_rest (after_at a) (after_at-stands_in s a) h
  where
    here :
        (b : Bool)
        → (c == b'@') ≡ b
        → (if b then some a else none) ≡ some s
        → stands_in (b'@' ∷ s) (c ∷ a) ≡ true
    here true e h = ground (arith, h, e, prefix_refl a)
    here false e h = cc

    by_rest :
        (o : Option Text)
        → (o ≡ some s → stands_in (b'@' ∷ s) a ≡ true)
        → (elim o [ some t ↦ some t | none ↦ if c == b'@' then some a else none ]) ≡ some s
        → stands_in (b'@' ∷ s) (c ∷ a) ≡ true
    by_rest (some t) ih h = ground (arith, ih h)
    by_rest none ih h = here (c == b'@') refl h
