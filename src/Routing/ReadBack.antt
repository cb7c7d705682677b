-- ===== src/Routing/ReadBack.antt =====
-- internal/routing/rules.go: the lists that are read back from the rules of lists.
use mailbox_cli.Prelude.{
  ◌≡◌, refl, sym, ap, ◌∙◌, subst, Bool, true, false, ◌&&◌, ◌||◌, Option, none, some, List, [], ◌∷◌,
  ◌++◌, map, Text, text_eq, text_eq_iff, arith, if◌then◌else◌, All,
}
use mailbox_cli.Routing.Destinations.{
  Destination, inbox, feed, paper_trail, block, unknown, screener, destination_eq, spec_of, order,
  find_spec, Spec, has_word,
}
use mailbox_cli.Routing.Lists.{
  Lists, normalise, is_domain, rest_of, lookup, is_held, decided_as, has_spec, put, set, set_key,
}
use mailbox_cli.Routing.Rules.{
  keys, bool_eq, Rule, rule_for, rules_of, catch_all, rules, set_lists, add_from, add_domains,
  add_rule, add_rules, lists_from_rules,
}
use mailbox_cli.Routing.Decided.{lookup-put}
use mailbox_cli.Routing.Keys.{IsKey, IsKept, IsFit, keys-IsFit, IsKey-IsAt, has_word-keys}
use mailbox_cli.Routing.Delivered.{or_else, pick, kept_if, pick-lookup}

spec-no_screener :
    (d : Destination) → has_spec (spec_of d) ≡ true → destination_eq d screener ≡ false
unfolding spec_of find_spec order
spec-no_screener screener h = cc
spec-no_screener inbox h = refl
spec-no_screener feed h = refl
spec-no_screener paper_trail h = refl
spec-no_screener block h = refl
spec-no_screener (unknown word) h = refl

-- A decision about a key that has none.
set_new_key :
    (k : Text) (d : Destination) (l : Lists)
    → has_spec (spec_of d) ≡ true
    → lookup k l ≡ none
    → set_lists l (set_key k d l) ≡ put k d l
unfolding set_key
set_new_key k d l spec alone = rw (spec-no_screener d spec, spec, alone) refl

set_new :
    (k : Text) (d : Destination) (l : Lists)
    → IsKey k
    → has_spec (spec_of d) ≡ true
    → lookup k l ≡ none
    → set_lists l (set k d l) ≡ put k d l
unfolding set
set_new k d l (normal, fit) spec alone = ground (arith, normal, fit, set_new_key k d l spec alone)

-- What is found after keys have been added.
abbrev added : Text → Destination → List Text → Lists → Option Destination
added x d ks l = or_else (lookup x l) (if has_word x ks then some d else none)

lookup-add_one :
    (x k : Text) (d : Destination) (l : Lists)
    → IsKey k
    → has_spec (spec_of d) ≡ true
    → lookup x (if is_held (lookup k l) then l else set_lists l (set k d l))
      ≡ or_else (lookup x l) (if text_eq x k then some d else none)
lookup-add_one x k d l key spec = by_entry (lookup k l) refl
  where
    same : x ≡ k → lookup x l ≡ lookup k l
    same e = rw e refl

    by_entry :
        (o : Option Destination)
        → lookup k l ≡ o
        → lookup x (if is_held o then l else set_lists l (set k d l))
          ≡ or_else (lookup x l) (if text_eq x k then some d else none)
    by_entry none e =
        rw (set_new k d l key spec e)
          (ground (arith, lookup-put x k d l, text_eq_iff x k, text_eq_iff k x, same, e))
    by_entry (some f) e = ground (arith, text_eq_iff x k, same, e)

-- A domain key is read back from its domain.
domain_normal : (k : Text) → IsKey k → is_domain k ≡ true → b'@' ∷ normalise (rest_of k) ≡ k
domain_normal k (normal, fit) h =
    ap (λ t. b'@' ∷ t) (ground (arith, fit, h)) ∙ sym (IsKey-IsAt k (normal, fit) h)

or_else-word :
    (o : Option Destination) (b c : Bool) (d : Destination)
    → or_else (or_else o (if b then some d else none)) (if c then some d else none)
      ≡ or_else o (if b || c then some d else none)
or_else-word none true c d = refl
or_else-word none false c d = refl
or_else-word (some e) b c d = refl

or_else_none : (o : Option Destination) → or_else o none ≡ o
or_else_none none = refl
or_else_none (some d) = refl

module _ (x : Text) (d : Destination) (spec : has_spec (spec_of d) ≡ true) where
  abbrev add_one : Text → Lists → Lists
  add_one k l = if is_held (lookup k l) then l else set_lists l (set k d l)

  added-add_one :
      (k : Text) (ks : List Text) (l : Lists)
      → IsKey k
      → added x d ks (add_one k l) ≡ added x d (k ∷ ks) l
  added-add_one k ks l key =
      rw (lookup-add_one x k d l key spec)
        (or_else-word (lookup x l) (text_eq x k) (has_word x ks) d)

  lookup-add_from :
      (ks : List Text) (l : Lists)
      → All (IsFit false) ks
      → lookup x (add_from d ks l) ≡ added x d ks l
  unfolding add_from
  lookup-add_from [] l fits = sym (or_else_none (lookup x l))
  lookup-add_from (k ∷ ks) l (fit, fits) =
      rw fit.0.0 (lookup-add_from ks (add_one k l) fits ∙ added-add_one k ks l fit.0)

  lookup-add_domains :
      (ks : List Text) (l : Lists)
      → All (IsFit true) ks
      → lookup x (add_domains d (map rest_of ks) l) ≡ added x d ks l
  unfolding add_domains
  lookup-add_domains [] l fits = sym (or_else_none (lookup x l))
  lookup-add_domains (k ∷ ks) l (fit, fits) =
      subst (λ y. lookup x (add_domains d (map rest_of ks) (add_one y l)) ≡ added x d (k ∷ ks) l)
        (sym (domain_normal k fit.0 fit.1))
        (lookup-add_domains ks (add_one k l) fits ∙ added-add_one k ks l fit.0)

  lookup-add_rule :
      (b : Bool) (ks : List Text) (l : Lists)
      → All (IsFit b) ks
      → lookup x (add_rules (rule_for d b ks) l) ≡ added x d ks l
  unfolding add_rules add_rule rule_for add_from add_domains
  lookup-add_rule b [] l fits = sym (or_else_none (lookup x l))
  lookup-add_rule false (k ∷ ks) l fits = rw spec (lookup-add_from (k ∷ ks) l fits)
  lookup-add_rule true (k ∷ ks) l fits = rw spec (lookup-add_domains (k ∷ ks) l fits)

add_rules-append :
    (rs ss : List Rule) (l : Lists) → add_rules (rs ++ ss) l ≡ add_rules ss (add_rules rs l)
unfolding add_rules
add_rules-append [] ss l = refl
add_rules-append (r ∷ rs) ss l = add_rules-append rs ss (add_rule r l)

or_else-pick :
    (o p : Option Destination) (t : Bool) (s : Spec) (specs : List Spec)
    → or_else
        (or_else o (if decided_as s.dest p && t then some s.dest else none))
        (pick specs (kept_if t p))
      ≡ or_else o (pick (s ∷ specs) (kept_if t p))
or_else-pick (some d) p t s specs = refl
or_else-pick none p true s specs = ground arith
or_else-pick none p false s specs = ground arith

lookup-rules_of :
    (x : Text) (b : Bool) (specs : List Spec) (l0 l : Lists)
    → IsKept l0
    → All (λ s. has_spec (spec_of s.dest) ≡ true) specs
    → lookup x (add_rules (rules_of b specs l0) l)
      ≡ or_else (lookup x l) (pick specs (kept_if (bool_eq b (is_domain x)) (lookup x l0)))
unfolding rules_of add_rules
lookup-rules_of x b [] l0 l kept specs = sym (or_else_none (lookup x l))
lookup-rules_of x b (s ∷ specs) l0 l kept (spec, more) =
    let rule = rule_for s.dest b (keys s.dest b l0) in
    ap (lookup x) (add_rules-append rule (rules_of b specs l0) l)
    ∙ lookup-rules_of x b specs l0 (add_rules rule l) kept more
    ∙ rw
        (
          lookup-add_rule x s.dest spec b (keys s.dest b l0) l (keys-IsFit s.dest b l0 kept),
          has_word-keys x s.dest b l0 kept,
        )
        (or_else-pick (lookup x l) (lookup x l0) (bool_eq b (is_domain x)) s specs)

order_specs : All (λ s. has_spec (spec_of s.dest) ≡ true) order
unfolding order spec_of find_spec
order_specs = (refl, (refl, (refl, (refl, tt))))

lookup-ordered :
    (x : Text) (b : Bool) (l0 l : Lists)
    → IsKept l0
    → lookup x (add_rules (rules_of b order l0) l)
      ≡ or_else (lookup x l) (kept_if (bool_eq b (is_domain x)) (lookup x l0))
lookup-ordered x b l0 l kept =
    lookup-rules_of x b order l0 l kept order_specs
    ∙ ap (or_else (lookup x l)) (pick-lookup x l0 (bool_eq b (is_domain x)) kept)

catch_all_adds_none : (l : Lists) → add_rules (catch_all ∷ []) l ≡ l
unfolding add_rules add_rule catch_all
catch_all_adds_none l = refl

both_kinds :
    (b : Bool) (o : Option Destination)
    → or_else (or_else none (kept_if (bool_eq false b) o)) (kept_if (bool_eq true b) o) ≡ o
both_kinds true o = refl
both_kinds false o = or_else_none o

-- The rules of lists that are as Set keeps them are read back as lists that decide the same.
pub rules_read_back :
    (l : Lists) (x : Text) → IsKept l → lookup x (lists_from_rules (rules l)) ≡ lookup x l
unfolding lists_from_rules rules
rules_read_back l x kept =
    let addresses = rules_of false order l in
    let domains = rules_of true order l in
    ap (lookup x) (add_rules-append addresses (domains ++ (catch_all ∷ [])) [])
    ∙ ap (lookup x) (add_rules-append domains (catch_all ∷ []) (add_rules addresses []))
    ∙ ap (lookup x) (catch_all_adds_none (add_rules domains (add_rules addresses [])))
    ∙ lookup-ordered x true l (add_rules addresses []) kept
    ∙ rw (lookup-ordered x false l [] kept) (unfold lookup in both_kinds (is_domain x) (lookup x l))
