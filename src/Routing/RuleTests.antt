-- ===== src/Routing/RuleTests.antt =====
-- Runs of internal/routing/rules.go.
use mailbox_cli.Prelude.{
  ◌≡◌, refl, true, false, none, some, All, [], ◌∷◌, Text, codes, trim, text_ltb,
}
use mailbox_cli.Routing.Destinations.{screener, feed, block, order, spec_of, find_spec}
use mailbox_cli.Routing.Lists.{
  Lists, normalise, is_domain, domain_key, valid, valid_domain, bytes, all_plain, is_plain, inside,
  lookup, domain_of, after_at, put, set, set_key, done, of, rest_of,
}
use mailbox_cli.Routing.Rules.{
  keys, insert_key, rules, rules_of, rule_for, rule_name, dest_text, catch_all, lists_from_rules,
  has_catch_all, unreadable,
}
use mailbox_cli.Routing.Keys.{IsKept}
use mailbox_cli.Routing.Kept.{set-IsKept}
use mailbox_cli.Routing.Enforced.{StandsAlone, rules_enforce, covered_sender}
use mailbox_cli.Routing.Delivered.{deliver}
use mailbox_cli.Routing.Senders.{by_text}
use mailbox_cli.Routing.ReadBack.{rules_read_back}

abbrev ann : Text
ann = codes "ann@x.org"

abbrev one : Lists
one = (codes "@x.org", block) ∷ []

abbrev two : Lists
two = (codes "@x.org", block) ∷ (ann, feed) ∷ []

one-IsKept : IsKept one
unfolding normalise trim is_domain domain_key valid_domain bytes all_plain is_plain inside spec_of
    find_spec order lookup
one-IsKept = ((refl, (refl, refl)), refl, refl, tt)

ann_normal : normalise (normalise ann) ≡ normalise ann
unfolding normalise trim
ann_normal = refl

ann_no_domain : is_domain ann ≡ false
unfolding is_domain domain_key normalise trim
ann_no_domain = refl

ann_to_feed : set ann feed one ≡ done true two
unfolding set set_key normalise trim is_domain domain_key valid bytes all_plain is_plain inside
    lookup put spec_of find_spec order
ann_to_feed = refl

ann_rest :
    is_domain (normalise ann) ≡ true → normalise (rest_of (normalise ann)) ≡ rest_of (normalise ann)
unfolding is_domain domain_key normalise trim
ann_rest h = cc

two-IsKept : IsKept two
unfolding normalise trim is_domain domain_key valid valid_domain bytes all_plain is_plain inside
    spec_of find_spec order lookup
two-IsKept = ((refl, (refl, refl)), refl, refl, ((refl, refl), refl, refl, tt))

set-IsKept_example : IsKept two
set-IsKept_example = set-IsKept ann feed one two true one-IsKept ann_normal ann_rest ann_to_feed

ann_normalised : normalise ann ≡ ann
unfolding normalise trim
ann_normalised = refl

-- The domain of ann is the only one of the lists.
two_alone : All (λ e. StandsAlone ann (domain_of ann) e.0) two
unfolding is_domain domain_key normalise trim domain_of after_at
two_alone = ((λ p q. refl), ((λ p. absurd cc), tt))

rules_enforce_example : deliver by_text (rules two) ann ≡ some (of ann two)
rules_enforce_example = rules_enforce two ann two-IsKept ann_normalised ann_no_domain two_alone

-- A stranger whose host begins with a blocked domain.
abbrev eve : Text
eve = codes "ann@x.org.evil.net"

eve_normal : normalise eve ≡ eve
unfolding normalise trim
eve_normal = refl

eve_undecided :
    (is_domain eve ≡ false) × (lookup eve two ≡ none) × (lookup (b'@' ∷ domain_of eve) two ≡ none)
unfolding is_domain domain_key normalise trim domain_of after_at lookup
eve_undecided = (refl, refl, refl)

blocked_domain : (lookup (codes "@x.org") two ≡ some block) × (is_domain (codes "@x.org") ≡ true)
unfolding is_domain domain_key normalise trim lookup
blocked_domain = (refl, refl)

eve_alone : All (λ e. StandsAlone eve (codes "x.org") e.0) two
unfolding is_domain domain_key normalise trim
eve_alone = ((λ p q. refl), ((λ p. absurd cc), tt))

covered_sender_example : (deliver by_text (rules two) eve ≡ some block) × (of eve two ≡ screener)
covered_sender_example =
    covered_sender two eve (codes "x.org") block two-IsKept eve_normal eve_undecided.0
      eve_undecided.1 eve_undecided.2 blocked_domain.0 blocked_domain.1 refl eve_alone

rules_read_back_example : lookup ann (lists_from_rules (rules two)) ≡ lookup ann two
rules_read_back_example = rules_read_back two ann two-IsKept

two_listed :
    rules two
    ≡ record {
      name = codes "mailbox: feed";
      dest = feed;
      from = ann ∷ [];
      domains = [];
      catch_all = false;
    }
      ∷ record {
        name = codes "mailbox: block (domains)";
        dest = block;
        from = [];
        domains = codes "x.org" ∷ [];
        catch_all = false;
      }
      ∷ catch_all
      ∷ []
unfolding rules rules_of rule_for rule_name dest_text keys insert_key order is_domain domain_key
    normalise trim text_ltb
two_listed = refl

two_readable : unreadable (rules two) ≡ false
unfolding rules rules_of rule_for keys insert_key order is_domain domain_key normalise trim
    unreadable spec_of find_spec catch_all
two_readable = refl

two_in_force : has_catch_all (rules two) ≡ true
unfolding rules rules_of rule_for keys insert_key order is_domain domain_key normalise trim
    has_catch_all catch_all
two_in_force = refl
