-- ===== src/Routing/Delivered.antt =====
-- internal/routing/rules.go: the rules, run by a server that has a test for domains.
use mailbox_cli.Prelude.{
  ◌≡◌, refl, ◌∙◌, Bool, true, false, ◌||◌, Option, none, some, List, [], ◌∷◌, ◌++◌, map, Text,
  text_eq, text_eq_iff, any_of, arith, if◌then◌else◌, All,
}
use mailbox_cli.Routing.Destinations.{
  Destination, screener, destination_eq, spec_of, order, find_spec, Spec, has_word,
}
use mailbox_cli.Routing.Lists.{Lists, is_domain, rest_of, lookup, has_spec, decided_as}
use mailbox_cli.Routing.Rules.{keys, bool_eq, Rule, rule_for, rules_of, catch_all, rules}
use mailbox_cli.Routing.Decided.{destination_eq_sound, destination_eq_refl}
use mailbox_cli.Routing.Keys.{
  IsKept, IsAt, IsFit, IsKey-IsAt, has_word-keys, lookup-has_spec, keys-IsFit, keys-All,
}

abbrev pub or_else : Option Destination → Option Destination → Option Destination
or_else none o = o
or_else (some d) o = some d

-- A server runs the rules in their order: the first that names the sender, or a domain that passes the
-- server's test for domains, or everybody, says where the mail goes.
module _ (in_domain : Text → Text → Bool) where
  abbrev pub matches : Text → Rule → Bool
  matches a r = r.catch_all || has_word a r.from || any_of (in_domain a) r.domains

  abbrev pub deliver : List Rule → Text → Option Destination
  deliver [] a = none
  deliver (r ∷ rs) a = let rest = deliver rs a in if matches a r then some r.dest else rest

  deliver-append :
      (rs ss : List Rule) (a : Text) → deliver (rs ++ ss) a ≡ or_else (deliver rs a) (deliver ss a)
  deliver-append [] ss a = refl
  deliver-append (r ∷ rs) ss a = ground (arith, deliver-append rs ss a)

-- Of the domains with a decision, the sender passes the test for `t` alone.
abbrev pub Singles : (Text → Text → Bool) → Text → Text → Text → Type 0
Singles in_domain a t k = is_domain k ≡ true → in_domain a (rest_of k) ≡ text_eq t (rest_of k)

-- What a rule looks for in its keys, for a sender.
abbrev target : Text → Bool → Text → Text
target t false a = a
target t true a = b'@' ∷ t

module _ (in_domain : Text → Text → Bool) (a t : Text) where
  among_domains :
      (ks : List Text)
      → All (λ k. IsAt k × (in_domain a (rest_of k) ≡ text_eq t (rest_of k))) ks
      → any_of (in_domain a) (map rest_of ks) ≡ has_word (b'@' ∷ t) ks
  among_domains [] p = refl
  among_domains (k ∷ ks) ((p, q), ps) =
      ground (
        arith,
        among_domains ks ps,
        text_eq_iff t (rest_of k),
        text_eq_iff (b'@' ∷ t) k,
        p,
        q,
        same,
      )
    where
      same : t ≡ rest_of k → b'@' ∷ t ≡ b'@' ∷ rest_of k
      same e = rw e refl

  deliver-rule_for :
      (d : Destination) (domains : Bool) (ks : List Text)
      → (domains ≡ true → All (λ k. IsAt k × (in_domain a (rest_of k) ≡ text_eq t (rest_of k))) ks)
      → deliver in_domain (rule_for d domains ks) a
        ≡ (if has_word (target t domains a) ks then some d else none)
  unfolding rule_for
  deliver-rule_for d domains [] at = refl
  deliver-rule_for d false (k ∷ ks) at = ground arith
  deliver-rule_for d true (k ∷ ks) at = ground (arith, among_domains (k ∷ ks) (at refl))

-- The first of some specs that a decision is.
abbrev pub pick : List Spec → Option Destination → Option Destination
pick [] o = none
pick (s ∷ specs) o = let rest = pick specs o in if decided_as s.dest o then some s.dest else rest

abbrev pub kept_if : Bool → Option Destination → Option Destination
kept_if b o = if b then o else none

singled :
    (in_domain : Text → Text → Bool) (a t : Text) (ks : List Text)
    → All (IsFit true) ks
    → All (Singles in_domain a t) ks
    → All (λ k. IsAt k × (in_domain a (rest_of k) ≡ text_eq t (rest_of k))) ks
singled in_domain a t [] fit apart = tt
singled in_domain a t (k ∷ ks) ((key, domain), fit) (p, ps) =
    ((IsKey-IsAt k key domain, p domain), singled in_domain a t ks fit ps)

deliver-rules_of :
    (in_domain : Text → Text → Bool) (a t : Text) (domains : Bool) (specs : List Spec) (l : Lists)
    → IsKept l
    → All (λ e. Singles in_domain a t e.0) l
    → deliver in_domain (rules_of domains specs l) a
      ≡ pick specs (
          kept_if
            (bool_eq domains (is_domain (target t domains a)))
            (lookup (target t domains a) l))
unfolding rules_of
deliver-rules_of in_domain a t domains [] l kept apart = refl
deliver-rules_of in_domain a t domains (s ∷ specs) l kept apart =
    deliver-append in_domain (rule_for s.dest domains (keys s.dest domains l))
      (rules_of domains specs l) a
    ∙ ground (
      arith,
      deliver-rule_for in_domain a t s.dest domains (keys s.dest domains l) (at domains),
      has_word-keys (target t domains a) s.dest domains l kept,
      deliver-rules_of in_domain a t domains specs l kept apart,
    )
  where
    at :
        (b : Bool)
        → b ≡ true
        → All (λ k. IsAt k × (in_domain a (rest_of k) ≡ text_eq t (rest_of k))) (keys s.dest b l)
    at true e =
        singled in_domain a t (keys s.dest true l) (keys-IsFit s.dest true l kept)
          (keys-All (Singles in_domain a t) s.dest true l apart)
    at false e = cc

pick-spec :
    (specs : List Spec) (d : Destination)
    → has_spec (find_spec d specs) ≡ true
    → pick specs (some d) ≡ some d
unfolding find_spec
pick-spec [] d h = cc
pick-spec (s ∷ specs) d h = ground (
  arith,
  h,
  pick-spec specs d,
  destination_eq_sound s.dest d,
  destination_eq_sound d s.dest,
  same,
)
  where
    same : s.dest ≡ d → (destination_eq s.dest d ≡ true) × (destination_eq d s.dest ≡ true)
    same e = rw e (destination_eq_refl d, destination_eq_refl d)

pick_none : (specs : List Spec) → pick specs none ≡ none
pick_none [] = refl
pick_none (s ∷ specs) = pick_none specs

-- Every decision of the lists has a rule.
pub pick-lookup :
    (k : Text) (l : Lists) (b : Bool)
    → IsKept l
    → pick order (kept_if b (lookup k l)) ≡ kept_if b (lookup k l)
pick-lookup k l false kept = pick_none order
pick-lookup k l true kept = by_entry (lookup k l) refl
  where
    by_entry : (o : Option Destination) → lookup k l ≡ o → pick order o ≡ o
    by_entry none e = pick_none order
    by_entry (some d) e = pick-spec order d (unfold spec_of in lookup-has_spec k d l kept e)

-- The rules decide by the address, then by the domain that the sender passes the test for, and then
-- for the Screener.
pub decided :
    (in_domain : Text → Text → Bool) (l : Lists) (a t : Text)
    → IsKept l
    → is_domain a ≡ false
    → All (λ e. Singles in_domain a t e.0) l
    → deliver in_domain (rules l) a
      ≡ or_else
          (lookup a l)
          (or_else (kept_if (is_domain (b'@' ∷ t)) (lookup (b'@' ∷ t) l)) (some screener))
unfolding rules catch_all
decided in_domain l a t kept h apart =
    let key = b'@' ∷ t in
    deliver-append in_domain (rules_of false order l) (rules_of true order l ++ (catch_all ∷ [])) a
    ∙ rw
        (
          deliver-append in_domain (rules_of true order l) (catch_all ∷ []) a,
          deliver-rules_of in_domain a t false order l kept apart,
          deliver-rules_of in_domain a t true order l kept apart,
          pick-lookup a l (bool_eq false (is_domain a)) kept,
          pick-lookup key l (bool_eq true (is_domain key)) kept,
          h,
        )
        refl
