-- ===== src/Routing/Keys.antt =====
-- internal/routing/rules.go: which senders a rule names.
use mailbox_cli.Prelude.{
  ◌≡◌, refl, subst, inl, inr, Bool, true, false, ◌&&◌, ◌||◌, none, some, List, [], ◌∷◌, Text,
  text_eq, text_eq_iff, arith, if◌then◌else◌, All, Bool-cases,
}
use mailbox_cli.Routing.Destinations.{Destination, destination_eq, spec_of, has_word}
use mailbox_cli.Routing.Lists.{
  Lists, normalise, is_domain, valid, valid_domain, rest_of, lookup, has_spec, decided_as,
  domain_key,
}
use mailbox_cli.Routing.Rules.{insert_key, keys, bool_eq}

-- The lists as Set keeps them: one entry for a key, each key as normalise leaves it and fit for the
-- script, and a destination that has a rule. The domain of a key is as normalise leaves it.
abbrev pub IsKey : Text → Type 0
IsKey a =
    (normalise a ≡ a)
    × (if is_domain a
        then (valid_domain a ≡ true) × (normalise (rest_of a) ≡ rest_of a)
        else valid a ≡ true)

abbrev pub IsKept : Lists → Type 0
IsKept [] = Unit
IsKept ((a, d) ∷ l) = IsKey a × (has_spec (spec_of d) ≡ true) × (lookup a l ≡ none) × IsKept l

has_word-insert_key :
    (w k : Text) (ks : List Text) → has_word w (insert_key k ks) ≡ (text_eq w k || has_word w ks)
unfolding insert_key
has_word-insert_key w k [] = refl
has_word-insert_key w k (x ∷ ks) = ground (arith, has_word-insert_key w k ks)

-- A key is named by the rule of the destination that it has.
pub has_word-keys :
    (a : Text) (d : Destination) (domains : Bool) (l : Lists)
    → IsKept l
    → has_word a (keys d domains l) ≡ (decided_as d (lookup a l) && bool_eq domains (is_domain a))
unfolding keys lookup
has_word-keys a d domains [] kept = refl
has_word-keys a d domains ((k, got) ∷ l) (key, spec, alone, kept) = ground (
  arith,
  has_word-insert_key a k (keys d domains l),
  has_word-keys a d domains l kept,
  text_eq_iff k a,
  text_eq_iff a k,
  alone,
  same,
)
  where
    same : k ≡ a → (is_domain k ≡ is_domain a) × (lookup k l ≡ lookup a l)
    same e = (rw e refl, rw e refl)

-- What a key decides is a destination that has a rule.
pub lookup-has_spec :
    (a : Text) (d : Destination) (l : Lists)
    → IsKept l
    → lookup a l ≡ some d
    → has_spec (spec_of d) ≡ true
unfolding lookup
lookup-has_spec a d [] kept h = cc
lookup-has_spec a d ((k, got) ∷ l) (key, spec, alone, kept) h = elim (Bool-cases (text_eq k a)) [
  | inl e ↦ subst (λ x. has_spec (spec_of x) ≡ true) (ground (arith, h, e)) spec
  | inr e ↦ lookup-has_spec a d l kept (ground (arith, h, e))
]

pub lookup-IsKey :
    (a : Text) (d : Destination) (l : Lists) → IsKept l → lookup a l ≡ some d → IsKey a
unfolding lookup
lookup-IsKey a d [] kept h = cc
lookup-IsKey a d ((k, got) ∷ l) (key, spec, alone, kept) h = elim (Bool-cases (text_eq k a)) [
  | inl e ↦ subst IsKey ((text_eq_iff k a).0 e) key
  | inr e ↦ lookup-IsKey a d l kept (ground (arith, h, e))
]

-- A domain key is an @ before the domain.
abbrev pub IsAt : Text → Type 0
IsAt k = k ≡ b'@' ∷ rest_of k

domain_key-IsAt : (k : Text) → domain_key k ≡ true → IsAt k
unfolding domain_key
domain_key-IsAt [] h = cc
domain_key-IsAt (c ∷ k) h = ground (arith, h)

pub IsKey-IsAt : (k : Text) → IsKey k → is_domain k ≡ true → IsAt k
unfolding is_domain
IsKey-IsAt k (normal, fit) h = domain_key-IsAt k (subst (λ x. domain_key x ≡ true) normal h)

pub All-insert_key :
    (P : Text → Type 0) (k : Text) (ks : List Text) → P k → All P ks → All P (insert_key k ks)
unfolding insert_key
All-insert_key P k [] p ps = (p, tt)
All-insert_key P k (x ∷ ks) p (q, qs) = ground (arith, p, q, qs, All-insert_key P k ks p qs)

-- A key of one kind.
abbrev pub IsFit : Bool → Text → Type 0
IsFit b k = IsKey k × (is_domain k ≡ b)

bool_eq_sound : (b c : Bool) → bool_eq b c ≡ true → c ≡ b
bool_eq_sound true c h = h
bool_eq_sound false c h = ground (arith, h)

pub keys-IsFit : (d : Destination) (b : Bool) (l : Lists) → IsKept l → All (IsFit b) (keys d b l)
unfolding keys
keys-IsFit d b [] kept = tt
keys-IsFit d b ((k, got) ∷ l) (key, spec, alone, kept) =
    by_test (destination_eq got d && bool_eq b (is_domain k)) (λ h. ground (arith, h))
      (keys-IsFit d b l kept)
  where
    by_test :
        (t : Bool)
        → (t ≡ true → bool_eq b (is_domain k) ≡ true)
        → All (IsFit b) (keys d b l)
        → All (IsFit b) (if t then insert_key k (keys d b l) else keys d b l)
    by_test true h ih =
        All-insert_key (IsFit b) k (keys d b l) (key, bool_eq_sound b (is_domain k) (h refl)) ih
    by_test false h ih = ih

fit-IsAt : (ks : List Text) → All (IsFit true) ks → All IsAt ks
fit-IsAt [] p = tt
fit-IsAt (k ∷ ks) ((key, domain), ps) = (IsKey-IsAt k key domain, fit-IsAt ks ps)

pub keys-IsAt : (d : Destination) (l : Lists) → IsKept l → All IsAt (keys d true l)
keys-IsAt d l kept = fit-IsAt (keys d true l) (keys-IsFit d true l kept)

-- What holds of all keys holds of those of one rule.
pub keys-All :
    (P : Text → Type 0) (d : Destination) (b : Bool) (l : Lists)
    → All (λ e. P e.0) l
    → All P (keys d b l)
unfolding keys
keys-All P d b [] ps = tt
keys-All P d b ((k, got) ∷ l) (p, ps) =
    by_test (destination_eq got d && bool_eq b (is_domain k)) (keys-All P d b l ps)
  where
    by_test :
        (t : Bool)
        → All P (keys d b l)
        → All P (if t then insert_key k (keys d b l) else keys d b l)
    by_test true ih = All-insert_key P k (keys d b l) p ih
    by_test false ih = ih
