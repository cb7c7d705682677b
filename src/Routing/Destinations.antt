-- ===== src/Routing/Destinations.antt =====
-- internal/routing/routing.go: what can be decided about a sender, and what it means.
use mailbox_cli.Prelude.{
  Bool, true, false, Option, none, some, List, [], ◌∷◌, Text, codes, text_eq, to_lower, trim,
  if◌then◌else◌, any_of,
}

-- `screener` is the absence of a decision; `unknown` is a word that names none.
pub data Destination : Type 0 where
  inbox feed paper_trail block screener : Destination
  unknown : Text → Destination

abbrev pub destination_eq : Destination → Destination → Bool
destination_eq inbox inbox = true
destination_eq feed feed = true
destination_eq paper_trail paper_trail = true
destination_eq block block = true
destination_eq screener screener = true
destination_eq (unknown a) (unknown b) = text_eq a b
destination_eq _ _ = false

-- What one destination means: the box of new mail, the box of mail that waits in the Screener, and
-- whether it is read on arrival.
pub record Spec : Type 0 where
  pub dest : Destination
  pub files : Text
  pub lands : Text
  pub seen : Bool
  pub aliases : List Text

-- The order of the rules.
unfoldable pub order : List Spec
order =
    record {
      dest = block;
      files = [];
      lands = [];
      seen = false;
      aliases = codes "block" ∷ codes "blocked" ∷ codes "blacklist" ∷ [];
    }
    ∷ record {
      dest = inbox;
      files = codes "INBOX";
      lands = codes "INBOX";
      seen = false;
      aliases = codes "inbox" ∷ codes "in" ∷ [];
    }
    ∷ record {
      dest = paper_trail;
      files = codes "INBOX/Paper Trail";
      lands = codes "INBOX/Paper Trail";
      seen = true;
      aliases = codes "paper" ∷ codes "papertrail" ∷ codes "paper trail" ∷ codes "trail" ∷ [];
    }
    ∷ record {
      dest = feed;
      files = codes "INBOX/Feed";
      lands = codes "INBOX/Feed";
      seen = true;
      aliases = codes "feed" ∷ codes "feeds" ∷ [];
    }
    ∷ []

unfoldable pub find_spec : Destination → List Spec → Option Spec
find_spec d [] = none
find_spec d (s ∷ specs) =
    let rest = find_spec d specs in if destination_eq s.dest d then some s else rest

unfoldable pub spec_of : Destination → Option Spec
spec_of d = find_spec d order

abbrev pub has_word : Text → List Text → Bool
has_word w = any_of (λ a. text_eq w a)

unfoldable pub find_alias : Text → List Spec → Option Destination
find_alias w [] = none
find_alias w (s ∷ specs) =
    let rest = find_alias w specs in if has_word w s.aliases then some s.dest else rest

-- ParseDestination; `none` is an error.
unfoldable pub parse_destination : Text → Option Destination
parse_destination word =
    let w = to_lower (trim word) in
    if text_eq w []
    then none
    else if has_word w (codes "screener" ∷ codes "none" ∷ codes "forget" ∷ codes "undecided" ∷ [])
    then some screener
    else if has_word w (
        codes "aside"
        ∷ codes "reply later"
        ∷ codes "reply-later"
        ∷ codes "replylater"
        ∷ codes "bubble"
        ∷ [])
    then none
    else find_alias w order
