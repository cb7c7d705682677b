-- ===== src/Routing/Enforced.antt =====
-- internal/routing/rules.go: the rules, run by a server, send each sender where the lists say.
use mailbox_cli.Prelude.{
  trim, ◌≡◌, refl, ◌∙◌, sym, subst, inl, inr, Bool-cases, Bool, true, false, Option, none, some, [],
  ◌∷◌, Text, text_eq, text_eq_iff, arith, if◌then◌else◌, All, ◌==◌, mem,
}
use mailbox_cli.Routing.Destinations.{Destination, screener}
use mailbox_cli.Routing.Lists.{
  Lists, normalise, is_domain, domain_of, after_at, text_or_empty, rest_of, lookup, domain_key, of,
  of_key, of_domain, or_screener,
}
use mailbox_cli.Routing.Rules.{rules}
use mailbox_cli.Routing.Keys.{IsKept, IsKey-IsAt, lookup-IsKey}
use mailbox_cli.Routing.Senders.{sender_contains, stands_in, by_text, after_at-stands_in}
use mailbox_cli.Routing.Delivered.{or_else, deliver, Singles, kept_if, decided}

-- No @ stands in what is found after the last one.
abbrev HasNone : Text → Option Text → Type 0
HasNone t none = mem b'@' t ≡ false
HasNone t (some s) = mem b'@' s ≡ false

after_at-HasNone : (t : Text) → HasNone t (after_at t)
unfolding after_at
after_at-HasNone [] = refl
after_at-HasNone (c ∷ t) = by_rest (after_at t) (after_at-HasNone t)
  where
    here :
        (b : Bool)
        → (c == b'@') ≡ b
        → mem b'@' t ≡ false
        → HasNone (c ∷ t) (if b then some t else none)
    here true e h = h
    here false e h = ground (arith, e, h)

    by_rest :
        (o : Option Text)
        → HasNone t o
        → HasNone (c ∷ t) (elim o [ some s ↦ some s | none ↦ if c == b'@' then some t else none ])
    by_rest (some s) ih = ih
    by_rest none ih = here (c == b'@') refl ih

mem-domain_of : (a : Text) → normalise a ≡ a → is_domain a ≡ false → mem b'@' (domain_of a) ≡ false
unfolding domain_of
mem-domain_of a normal h = rw (normal, h) (by_rest (after_at a) (after_at-HasNone a))
  where
    by_rest : (o : Option Text) → HasNone a o → mem b'@' (text_or_empty o) ≡ false
    by_rest none p = refl
    by_rest (some s) p = p

-- A decision about a domain is found by its key.
domain_decides :
    (t : Text) (l : Lists)
    → IsKept l
    → mem b'@' t ≡ false
    → or_else (kept_if (is_domain (b'@' ∷ t)) (lookup (b'@' ∷ t) l)) (some screener)
      ≡ some (of_domain t l)
unfolding of_domain
domain_decides [] l kept h = unfold is_domain normalise trim domain_key in refl
domain_decides (c ∷ t) l kept h = by_entry (lookup (b'@' ∷ c ∷ t) l) refl
  where
    by_entry :
        (o : Option Destination)
        → lookup (b'@' ∷ c ∷ t) l ≡ o
        → or_else (kept_if (is_domain (b'@' ∷ c ∷ t)) o) (some screener) ≡ some (or_screener o)
    by_entry none e = ground arith
    by_entry (some d) e =
        unfold is_domain domain_key in
        rw (lookup-IsKey (b'@' ∷ c ∷ t) d l kept e).0 (ground (arith, h))

as_decided :
    (l : Lists) (a : Text)
    → IsKept l
    → normalise a ≡ a
    → is_domain a ≡ false
    → or_else (lookup a l) (
        or_else
          (kept_if (is_domain (b'@' ∷ domain_of a)) (lookup (b'@' ∷ domain_of a) l))
          (some screener))
      ≡ some (of a l)
unfolding of
as_decided l a kept normal h =
    rw normal
      (by_entry (lookup a l) (domain_decides (domain_of a) l kept (mem-domain_of a normal h)))
  where
    by_entry :
        (o : Option Destination)
        → or_else
            (kept_if (is_domain (b'@' ∷ domain_of a)) (lookup (b'@' ∷ domain_of a) l))
            (some screener)
          ≡ some (of_domain (domain_of a) l)
        → or_else o (
            or_else
              (kept_if (is_domain (b'@' ∷ domain_of a)) (lookup (b'@' ∷ domain_of a) l))
              (some screener))
          ≡ some (of_key a l o)
    by_entry (some d) e = unfold of_key in refl
    by_entry none e = unfold of_key in rw h e

-- A key of the lists that is a domain and stands in the address is the one of the domain `t`.
abbrev pub StandsAlone : Text → Text → Text → Type 0
StandsAlone a t k = is_domain k ≡ true → stands_in k a ≡ true → k ≡ b'@' ∷ t

stands_in_lem :
    (a t r : Text)
    → is_domain (b'@' ∷ r) ≡ true
    → (is_domain (b'@' ∷ t) ≡ true → stands_in (b'@' ∷ t) a ≡ true)
    → (stands_in (b'@' ∷ r) a ≡ true → b'@' ∷ r ≡ b'@' ∷ t)
    → stands_in (b'@' ∷ r) a ≡ text_eq t r
stands_in_lem a t r domain own alone = elim (Bool-cases (text_eq t r)) [
  | inl e ↦
      let q = (text_eq_iff t r).0 e in
      subst (λ x. stands_in (b'@' ∷ x) a ≡ true) q
        (own (subst (λ x. is_domain (b'@' ∷ x) ≡ true) (sym q) domain))
      ∙ sym e
  | inr e ↦ elim (Bool-cases (stands_in (b'@' ∷ r) a)) [
    | inl f ↦ ground (arith, alone f, text_eq_iff t r)
    | inr f ↦ f ∙ sym e
  ]
]

alone-Singles :
    (a t : Text) (l : Lists)
    → IsKept l
    → (is_domain (b'@' ∷ t) ≡ true → stands_in (b'@' ∷ t) a ≡ true)
    → All (λ e. StandsAlone a t e.0) l
    → All (λ e. Singles by_text a t e.0) l
unfolding sender_contains
alone-Singles a t [] kept own alone = tt
alone-Singles a t ((k, d) ∷ l) (key, spec, fresh, kept) own (one, more) =
    (by_key, alone-Singles a t l kept own more)
  where
    by_key : Singles by_text a t k
    by_key domain =
        let at = IsKey-IsAt k key domain in
        stands_in_lem a t (rest_of k) (subst (λ x. is_domain x ≡ true) at domain) own
          (λ h. sym at ∙ one domain (subst (λ x. stands_in x a ≡ true) (sym at) h))

own_domain :
    (a : Text)
    → normalise a ≡ a
    → is_domain a ≡ false
    → is_domain (b'@' ∷ domain_of a) ≡ true
    → stands_in (b'@' ∷ domain_of a) a ≡ true
unfolding domain_of
own_domain a normal h = rw (normal, h) (by_rest (after_at a) refl)
  where
    by_rest :
        (o : Option Text)
        → after_at a ≡ o
        → is_domain (b'@' ∷ text_or_empty o) ≡ true
        → stands_in (b'@' ∷ text_or_empty o) a ≡ true
    by_rest none e domain = absurd (unfold is_domain normalise trim domain_key in cc)
    by_rest (some s) e domain = after_at-stands_in s a e

-- If the lists are as Set keeps them, a sender is as normalise leaves it and not a domain key, and no
-- domain of the lists stands in the sender's address behind an @ but the sender's own, then a server
-- that looks for domains as texts in the address runs the rules so that the sender's mail goes where the
-- lists say.
pub rules_enforce :
    (l : Lists) (a : Text)
    → IsKept l
    → normalise a ≡ a
    → is_domain a ≡ false
    → All (λ e. StandsAlone a (domain_of a) e.0) l
    → deliver by_text (rules l) a ≡ some (of a l)
rules_enforce l a kept normal h alone =
    decided by_text l a (domain_of a) kept h
      (alone-Singles a (domain_of a) l kept (own_domain a normal h) alone)
    ∙ as_decided l a kept normal h

none_kept : (b : Bool) → kept_if b none ≡ none
none_kept true = refl
none_kept false = refl

-- If the lists are as Set keeps them, they decide nothing about a sender, who is as normalise leaves it
-- and not a domain key, and a domain of theirs, and no other, stands in the sender's address behind an @,
-- then a server that looks for domains as texts in the address runs the rules so that the sender's mail
-- goes where that domain's does, while the lists say the Screener.
pub covered_sender :
    (l : Lists) (a t : Text) (d : Destination)
    → IsKept l
    → normalise a ≡ a
    → is_domain a ≡ false
    → lookup a l ≡ none
    → lookup (b'@' ∷ domain_of a) l ≡ none
    → lookup (b'@' ∷ t) l ≡ some d
    → is_domain (b'@' ∷ t) ≡ true
    → stands_in (b'@' ∷ t) a ≡ true
    → All (λ e. StandsAlone a t e.0) l
    → (deliver by_text (rules l) a ≡ some d) × (of a l ≡ screener)
covered_sender l a t d kept normal h no_key no_domain found domain stands alone = (
  decided by_text l a t kept h (alone-Singles a t l kept (λ _. stands) alone)
      ∙ rw (no_key, found, domain) refl,
  some_inj (
      sym (as_decided l a kept normal h)
      ∙ rw (no_key, no_domain, none_kept (is_domain (b'@' ∷ domain_of a))) refl),
)
  where
    some_inj : {x y : Destination} → some x ≡ some y → x ≡ y
    some_inj e = cc
