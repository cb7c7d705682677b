-- ===== src/Routing/Lists.antt =====
-- internal/routing/routing.go: the decisions about addresses and domains.
use mailbox_cli.Prelude.{
  ℕ, ◌+◌, Bool, true, false, ◌&&◌, ◌||◌, not, Option, none, some, List, [], ◌∷◌, Text, text_eq,
  to_lower, trim, mem, ltb, leb, ◌==◌, if◌then◌else◌,
}
use mailbox_cli.Routing.Destinations.{Destination, screener, destination_eq, Spec, spec_of}

-- The map `by`, without two entries for one key.
abbrev pub Lists : Type 0
Lists = List (Text × Destination)

unfoldable pub normalise : Text → Text
normalise address = to_lower (trim address)

-- A character that a Sieve string can carry: no white space, quote, backslash, bracket, comma or
-- semicolon.
unfoldable pub is_plain : ℕ → Bool
is_plain c =
    not
      (mem c (9 ∷ 10 ∷ 12 ∷ 13 ∷ 32 ∷ b'"' ∷ b'\\' ∷ b'[' ∷ b']' ∷ b'<' ∷ b'>' ∷ b',' ∷ b';' ∷ []))

unfoldable pub all_plain : Text → Bool
all_plain [] = true
all_plain (c ∷ cs) = is_plain c && all_plain cs

-- A character stands somewhere with one before it and one after it.
unfoldable pub inside : ℕ → Text → Bool
inside c (a ∷ b ∷ d ∷ cs) = b == c || inside c (b ∷ d ∷ cs)
inside c _ = false

-- The number of bytes in UTF-8.
unfoldable pub bytes : Text → ℕ
bytes [] = 0
bytes (c ∷ cs) =
    (if ltb c 0x80 then 1 else if ltb c 0x800 then 2 else if ltb c 0x10000 then 3 else 4) + bytes cs

-- An address, of at most 320 bytes: plain characters, and an @ among them with characters on both
-- sides.
unfoldable pub valid : Text → Bool
valid address = leb (bytes address) 320 && all_plain address && inside b'@' address

unfoldable pub domain_key : Text → Bool
domain_key [] = false
domain_key (c ∷ cs) = c == b'@' && not (mem b'@' cs) && not (text_eq cs [])

unfoldable pub is_domain : Text → Bool
is_domain key = domain_key (normalise key)

abbrev pub rest_of : Text → Text
rest_of [] = []
rest_of (c ∷ cs) = cs

-- A domain: plain characters without an @, and a dot among them with characters on both sides.
unfoldable pub valid_domain : Text → Bool
valid_domain key =
    let k = normalise key in
    is_domain k
    && leb (bytes k) 320
    && all_plain (rest_of k)
    && not (mem b'@' (rest_of k))
    && inside b'.' (rest_of k)

-- What stands after the last @.
unfoldable pub after_at : Text → Option Text
after_at [] = none
after_at (c ∷ cs) = elim (after_at cs) [
  | some t ↦ some t
  | none ↦ if c == b'@' then some cs else none
]

abbrev pub text_or_empty : Option Text → Text
text_or_empty none = []
text_or_empty (some t) = t

unfoldable pub domain_of : Text → Text
domain_of address =
    let a = normalise address in if is_domain a then rest_of a else text_or_empty (after_at a)

unfoldable pub lookup : Text → Lists → Option Destination
lookup key [] = none
lookup key ((k, d) ∷ l) = let rest = lookup key l in if text_eq k key then some d else rest

unfoldable pub put : Text → Destination → Lists → Lists
put key d [] = (key, d) ∷ []
put key d ((k, e) ∷ l) =
    let rest = put key d l in if text_eq k key then (key, d) ∷ l else (k, e) ∷ rest

unfoldable pub remove : Text → Lists → Lists
remove key [] = []
remove key ((k, e) ∷ l) = let rest = remove key l in if text_eq k key then rest else (k, e) ∷ rest

abbrev pub or_screener : Option Destination → Destination
or_screener none = screener
or_screener (some d) = d

-- The decision about the domain of an address, if it has one.
unfoldable pub of_domain : Text → Lists → Destination
of_domain [] l = screener
of_domain (c ∷ cs) l = or_screener (lookup (b'@' ∷ c ∷ cs) l)

-- An exact address wins over a domain.
unfoldable pub of_key : Text → Lists → Option Destination → Destination
of_key a l (some d) = d
of_key a l none = if is_domain a then screener else of_domain (domain_of a) l

unfoldable pub of : Text → Lists → Destination
of address l = let a = normalise address in of_key a l (lookup a l)

-- What Set answers: whether it changed anything, with the lists it leaves, or why it refused.
pub data SetResult : Type 0 where
  done : Bool → Lists → SetResult
  bad_domain bad_address no_destination : SetResult

abbrev pub is_held : Option Destination → Bool
is_held none = false
is_held (some _) = true

abbrev pub decided_as : Destination → Option Destination → Bool
decided_as d none = false
decided_as d (some e) = destination_eq e d

abbrev pub has_spec : Option Spec → Bool
has_spec none = false
has_spec (some _) = true

unfoldable pub set_key : Text → Destination → Lists → SetResult
set_key a d l =
    if destination_eq d screener
    then (if is_held (lookup a l) then done true (remove a l) else done false l)
    else if not (has_spec (spec_of d))
    then no_destination
    else if decided_as d (lookup a l)
    then done false l
    else done true (put a d l)

unfoldable pub set : Text → Destination → Lists → SetResult
set address d l =
    let a = normalise address in
    if is_domain a
    then (if valid_domain a then set_key a d l else bad_domain)
    else if valid a
    then set_key a d l
    else bad_address
