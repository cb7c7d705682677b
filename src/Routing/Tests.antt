-- ===== src/Routing/Tests.antt =====
-- Decisions of internal/routing at concrete inputs, and the theorems about them at such inputs.
use mailbox_cli.Prelude.{◌≡◌, ◌≢◌, refl, true, false, some, [], ◌∷◌, Text, codes, trim}
use mailbox_cli.Routing.Destinations.{
  feed, block, paper_trail, screener, destination_eq, parse_destination, find_alias, order, spec_of,
  find_spec,
}
use mailbox_cli.Routing.Lists.{
  Lists, normalise, is_domain, domain_key, domain_of, valid, valid_domain, bytes, all_plain,
  is_plain, inside, lookup, put, of, set, set_key, done, bad_address,
}
use mailbox_cli.Routing.Decided.{decision_stands}

abbrev decided : Lists
decided = (codes "@example.org", block) ∷ []

abbrev ann : Text
ann = codes " Ann@Example.org "

abbrev ann_decided : Lists
ann_decided = (codes "@example.org", block) ∷ (codes "ann@example.org", feed) ∷ []

ann_goes_to_feed : set ann feed decided ≡ done true ann_decided
unfolding set set_key normalise trim is_domain domain_key valid bytes all_plain is_plain inside
    lookup put spec_of find_spec order
ann_goes_to_feed = refl

-- A sender could otherwise write into the script.
quote_refused : set (codes "a\"b@example.org") feed decided ≡ bad_address
unfolding set normalise trim is_domain domain_key valid bytes all_plain is_plain inside
quote_refused = refl

decision_stands_example :
    (destination_eq feed screener ≡ false → of ann ann_decided ≡ feed)
    × ((b : Text)
        → normalise b ≢ normalise ann
        → b'@' ∷ domain_of (normalise b) ≢ normalise ann
        → of b ann_decided ≡ of b decided)
decision_stands_example = decision_stands ann feed decided ann_decided true ann_goes_to_feed

abbrev paper : Lists
paper = (codes "@example.org", paper_trail) ∷ (codes "ann@example.org", feed) ∷ []

example_goes_to_paper : set (codes "@example.org") paper_trail ann_decided ≡ done true paper
unfolding set set_key normalise trim is_domain domain_key valid_domain bytes all_plain is_plain
    inside lookup put spec_of find_spec order
example_goes_to_paper = refl

paper_is_known : parse_destination (codes " Paper Trail") ≡ some paper_trail
unfolding parse_destination trim find_alias order
paper_is_known = refl
