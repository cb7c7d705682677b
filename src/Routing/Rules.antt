-- ===== src/Routing/Rules.antt =====
-- internal/routing/rules.go, and keys of routing.go: the decisions as the rules that a server runs.
use mailbox_cli.Prelude.{
  Bool, true, false, ◌&&◌, ◌||◌, not, List, [], ◌∷◌, ◌++◌, map, Text, codes, text_ltb,
  if◌then◌else◌, any_of,
}
use mailbox_cli.Routing.Destinations.{
  Destination, inbox, feed, paper_trail, block, screener, unknown, destination_eq, Spec, order,
  spec_of,
}
use mailbox_cli.Routing.Lists.{
  Lists, normalise, is_domain, rest_of, lookup, is_held, has_spec, SetResult, done, bad_domain,
  bad_address, no_destination, set,
}

-- The word of a destination.
unfoldable pub dest_text : Destination → Text
dest_text inbox = codes "inbox"
dest_text feed = codes "feed"
dest_text paper_trail = codes "paper"
dest_text block = codes "block"
dest_text screener = codes "screener"
dest_text (unknown word) = word

abbrev pub bool_eq : Bool → Bool → Bool
bool_eq true b = b
bool_eq false b = not b

unfoldable pub insert_key : Text → List Text → List Text
insert_key k [] = k ∷ []
insert_key k (x ∷ xs) = let rest = insert_key k xs in if text_ltb x k then x ∷ rest else k ∷ x ∷ xs

-- The keys with a destination, addresses or domains, sorted.
unfoldable pub keys : Destination → Bool → Lists → List Text
keys d domains [] = []
keys d domains ((a, got) ∷ l) =
    let rest = keys d domains l in
    if destination_eq got d && bool_eq domains (is_domain a) then insert_key a rest else rest

pub record Rule : Type 0 where
  pub name : Text
  pub dest : Destination
  pub from : List Text
  pub domains : List Text
  pub catch_all : Bool

unfoldable pub rule_name : Destination → Bool → Text
rule_name d domains =
    codes "mailbox:" ++ (codes " " ++ (dest_text d ++ (if domains then codes " (domains)" else [])))

-- A list with nobody on it is no rule.
unfoldable pub rule_for : Destination → Bool → List Text → List Rule
rule_for d domains [] = []
rule_for d domains (k ∷ ks) =
    (if domains
      then record {
        name = rule_name d true;
        dest = d;
        from = [];
        domains = map rest_of (k ∷ ks);
        catch_all = false;
      }
      else record {
        name = rule_name d false;
        dest = d;
        from = k ∷ ks;
        domains = [];
        catch_all = false;
      })
    ∷ []

unfoldable pub rules_of : Bool → List Spec → Lists → List Rule
rules_of domains [] l = []
rules_of domains (s ∷ specs) l =
    rule_for s.dest domains (keys s.dest domains l) ++ rules_of domains specs l

unfoldable pub catch_all : Rule
catch_all = record {
  name = codes "mailbox: screener";
  dest = screener;
  from = [];
  domains = [];
  catch_all = true;
}

-- Lists.Rules
unfoldable pub rules : Lists → List Rule
rules l = rules_of false order l ++ (rules_of true order l ++ (catch_all ∷ []))

-- The lists that Set leaves; an error is passed over.
abbrev pub set_lists : Lists → SetResult → Lists
set_lists l (done changed l') = l'
set_lists l bad_domain = l
set_lists l bad_address = l
set_lists l no_destination = l

-- Of two rules that name a sender the earlier one counts.
unfoldable pub add_from : Destination → List Text → Lists → Lists
add_from d [] l = l
add_from d (k ∷ ks) l =
    add_from d ks (if is_held (lookup (normalise k) l) then l else set_lists l (set k d l))

unfoldable pub add_domains : Destination → List Text → Lists → Lists
add_domains d [] l = l
add_domains d (k ∷ ks) l =
    let key = b'@' ∷ normalise k in
    add_domains d ks (if is_held (lookup key l) then l else set_lists l (set key d l))

unfoldable pub add_rule : Rule → Lists → Lists
add_rule r l =
    if r.catch_all || not (has_spec (spec_of r.dest))
    then l
    else add_domains r.dest r.domains (add_from r.dest r.from l)

unfoldable pub add_rules : List Rule → Lists → Lists
add_rules [] l = l
add_rules (r ∷ rs) l = add_rules rs (add_rule r l)

-- ListsFromRules
unfoldable pub lists_from_rules : List Rule → Lists
lists_from_rules rs = add_rules rs []

unfoldable pub has_catch_all : List Rule → Bool
has_catch_all = any_of (λ r. r.catch_all)

unfoldable pub unreadable : List Rule → Bool
unreadable = any_of (λ r. not (has_spec (spec_of r.dest)) && not r.catch_all)
