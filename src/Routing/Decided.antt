-- ===== src/Routing/Decided.antt =====
-- internal/routing/routing.go: what is decided about a sender after a decision.
use mailbox_cli.Prelude.{
  ◌≡◌, ◌≢◌, ◌⊎◌, refl, sym, ap, ◌∙◌, subst, inl, inr, Bool, true, false, Option, none, some, List,
  [], ◌∷◌, Text, to_lower, trim, text_eq, text_eq_iff, text_eq_refl, text_eq_ne, arith,
  if◌then◌else◌, Bool-cases,
}
use mailbox_cli.Routing.Destinations.{
  Destination, inbox, feed, paper_trail, block, screener, unknown, destination_eq, spec_of, Spec,
  order, find_spec, find_alias, parse_destination, has_word,
}
use mailbox_cli.Routing.Lists.{
  Lists, normalise, domain_of, lookup, put, remove, of_domain, of_key, of, done, is_held,
  decided_as, has_spec, set_key, set, or_screener,
}

pub destination_eq_sound : (d e : Destination) → destination_eq d e ≡ true → d ≡ e
destination_eq_sound inbox inbox h = refl
destination_eq_sound feed feed h = refl
destination_eq_sound paper_trail paper_trail h = refl
destination_eq_sound block block h = refl
destination_eq_sound screener screener h = refl
destination_eq_sound (unknown a) (unknown b) h = ap unknown ((text_eq_iff a b).0 h)
destination_eq_sound _ _ h = cc

pub lookup-put :
    (b a : Text) (d : Destination) (l : Lists)
    → lookup b (put a d l) ≡ (if text_eq a b then some d else lookup b l)
unfolding lookup put
lookup-put b a d [] = refl
lookup-put b a d ((k, e) ∷ l) =
    ground (arith, lookup-put b a d l, text_eq_iff k a, text_eq_iff k b, text_eq_iff a b)

pub lookup-remove :
    (b a : Text) (l : Lists) → lookup b (remove a l) ≡ (if text_eq a b then none else lookup b l)
unfolding lookup remove
lookup-remove b a [] = ground arith
lookup-remove b a ((k, e) ∷ l) =
    ground (arith, lookup-remove b a l, text_eq_iff k a, text_eq_iff k b, text_eq_iff a b)

-- The entry that a decision leaves for its own key.
abbrev entry : Destination → Option Destination
entry d = if destination_eq d screener then none else some d

-- What set_key does to the lists, by what it decides on.
pub set_key-cases :
    (a : Text) (d : Destination) (l l' : Lists) (changed : Bool)
    → set_key a d l ≡ done changed l'
    → ((destination_eq d screener ≡ true) × (l' ≡ (if is_held (lookup a l) then remove a l else l)))
      ⊎ ((destination_eq d screener ≡ false)
          × (l' ≡ (if decided_as d (lookup a l) then l else put a d l)))
unfolding set_key
set_key-cases a d l l' changed h = elim (Bool-cases (destination_eq d screener)) [
  | inl e ↦ inl (e, ground (arith, e, h))
  | inr e ↦ inr (e, ground (arith, e, h))
]

lookup-held :
    (a b : Text) (l : Lists) (o : Option Destination)
    → lookup a l ≡ o
    → lookup b (if is_held o then remove a l else l) ≡ (if text_eq a b then none else lookup b l)
lookup-held a b l none h = ground (arith, text_eq_iff a b, h, same)
  where
    same : a ≡ b → lookup a l ≡ lookup b l
    same e = rw e
lookup-held a b l (some e) h = lookup-remove b a l

lookup-decided :
    (a b : Text) (d : Destination) (l : Lists) (o : Option Destination)
    → lookup a l ≡ o
    → lookup b (if decided_as d o then l else put a d l)
      ≡ (if text_eq a b then some d else lookup b l)
lookup-decided a b d l none h = lookup-put b a d l
lookup-decided a b d l (some e) h = elim (Bool-cases (destination_eq e d)) [
  | inl q ↦ rw q (ground (arith, text_eq_iff a b, h, same, destination_eq_sound e d q))
  | inr q ↦ rw q (lookup-put b a d l)
]
  where
    same : a ≡ b → lookup a l ≡ lookup b l
    same e = rw e

lookup-set_key :
    (b a : Text) (d : Destination) (l l' : Lists) (changed : Bool)
    → set_key a d l ≡ done changed l'
    → lookup b l' ≡ (if text_eq a b then entry d else lookup b l)
lookup-set_key b a d l l' changed h = elim (set_key-cases a d l l' changed h) [
  | inl (e, q) ↦ rw (q, e) (lookup-held a b l (lookup a l) refl)
  | inr (e, q) ↦ rw (q, e) (lookup-decided a b d l (lookup a l) refl)
]

pub set-set_key :
    (address : Text) (d : Destination) (l l' : Lists) (changed : Bool)
    → set address d l ≡ done changed l'
    → set_key (normalise address) d l ≡ done changed l'
unfolding set
set-set_key address d l l' changed h = ground (arith, h)

of_key-same :
    (a : Text) (l l' : Lists)
    → lookup a l' ≡ lookup a l
    → of_domain (domain_of a) l' ≡ of_domain (domain_of a) l
    → of_key a l' (lookup a l') ≡ of_key a l (lookup a l)
of_key-same a l l' p q = rw p (by_entry (lookup a l))
  where
    by_entry : (o : Option Destination) → of_key a l' o ≡ of_key a l o
    by_entry none = unfold of_key in rw q refl
    by_entry (some d) = unfold of_key in refl

of_domain-same :
    (t : Text) (l l' : Lists)
    → lookup (b'@' ∷ t) l' ≡ lookup (b'@' ∷ t) l
    → of_domain t l' ≡ of_domain t l
unfolding of_domain
of_domain-same [] l l' h = refl
of_domain-same (c ∷ cs) l l' h = ap or_screener h

-- After a decision that Set does not refuse, the sender goes where it says, unless it says the
-- Screener; and what is decided about any other sender stays, unless the decision was about the
-- domain of that sender.
pub decision_stands :
    (address : Text) (d : Destination) (l l' : Lists) (changed : Bool)
    → set address d l ≡ done changed l'
    → (destination_eq d screener ≡ false → of address l' ≡ d)
      × ((b : Text)
          → normalise b ≢ normalise address
          → b'@' ∷ domain_of (normalise b) ≢ normalise address
          → of b l' ≡ of b l)
unfolding of
decision_stands address d l l' changed h =
    let a = normalise address in
    let k = set-set_key address d l l' changed h in
    (
      λ n. rw (lookup-set_key a a d l l' changed k, text_eq_refl a, n) (unfold of_key in refl),
      λ b ne nd.
          let c = normalise b in
          of_key-same c l l'
            (lookup-set_key c a d l l' changed k ∙ rw (text_eq_ne a c (λ e. ne (sym e))))
            (of_domain-same (domain_of c) l l' (
              lookup-set_key (b'@' ∷ domain_of c) a d l l' changed k
              ∙ rw (text_eq_ne a (b'@' ∷ domain_of c) (λ e. nd (sym e))))),
    )

-- A decision about a domain leaves alone a sender whose address has a decision of its own.
pub address_wins :
    (b key : Text) (d e : Destination) (l l' : Lists) (changed : Bool)
    → set key d l ≡ done changed l'
    → normalise b ≢ normalise key
    → lookup (normalise b) l ≡ some e
    → of b l' ≡ e
unfolding of of_key
address_wins b key d e l l' changed h ne held = rw (
  lookup-set_key (normalise b) (normalise key) d l l' changed (set-set_key key d l l' changed h),
  text_eq_ne (normalise key) (normalise b) (λ q. ne (sym q)),
  held,
)

pub destination_eq_refl : (d : Destination) → destination_eq d d ≡ true
destination_eq_refl inbox = refl
destination_eq_refl feed = refl
destination_eq_refl paper_trail = refl
destination_eq_refl block = refl
destination_eq_refl screener = refl
destination_eq_refl (unknown a) = text_eq_refl a

find_alias-spec :
    (w : Text) (specs : List Spec) (d : Destination)
    → find_alias w specs ≡ some d
    → has_spec (find_spec d specs) ≡ true
unfolding find_alias find_spec
find_alias-spec w [] d h = cc
find_alias-spec w (s ∷ specs) d h = elim (Bool-cases (has_word w s.aliases)) [
  | inl e ↦ rw (dest_eq (ground (arith, h, e))) refl
  | inr e ↦ ground (arith, find_alias-spec w specs d (ground (arith, h, e)))
]
  where
    dest_eq : Path (Option Destination) (some s.dest) (some d) → destination_eq s.dest d ≡ true
    dest_eq q =
        subst (λ (x : Destination). destination_eq s.dest x ≡ true) (inner q)
          (destination_eq_refl s.dest)
      where
        inner : Path (Option Destination) (some s.dest) (some d) → s.dest ≡ d
        inner q' = cc

-- A destination that a caller can name is the Screener or one that Set takes.
pub parse_destination_known :
    (word : Text) (d : Destination)
    → parse_destination word ≡ some d
    → (d ≡ screener) ⊎ (has_spec (spec_of d) ≡ true)
unfolding parse_destination spec_of
parse_destination_known word d h = ground (arith, h, find_alias-spec (to_lower (trim word)) order d)
