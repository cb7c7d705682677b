-- ===== src/Routing/Kept.antt =====
-- internal/routing/routing.go: what Set keeps of the lists.
use mailbox_cli.Prelude.{
  ◌≡◌, refl, subst, inl, inr, Bool, true, false, not, none, [], ◌∷◌, Text, text_eq, text_eq_iff,
  arith, if◌then◌else◌, Bool-cases,
}
use mailbox_cli.Routing.Destinations.{Destination, screener, destination_eq, spec_of}
use mailbox_cli.Routing.Lists.{
  Lists, normalise, is_domain, rest_of, lookup, is_held, decided_as, has_spec, put, remove, set,
  set_key, SetResult, done, bad_domain, bad_address, no_destination,
}
use mailbox_cli.Routing.Decided.{lookup-put, lookup-remove}
use mailbox_cli.Routing.Keys.{IsKey, IsKept}

put-IsKept :
    (a : Text) (d : Destination) (l : Lists)
    → IsKey a
    → has_spec (spec_of d) ≡ true
    → IsKept l
    → IsKept (put a d l)
unfolding put
put-IsKept a d [] key spec kept = (key, spec, unfold lookup in refl, tt)
put-IsKept a d ((k, e) ∷ l) key spec (fit, s, alone, kept) = elim (Bool-cases (text_eq k a)) [
  | inl q ↦ rw q (key, spec, subst (λ x. lookup x l ≡ none) ((text_eq_iff k a).0 q) alone, kept)
  | inr q ↦ rw q (
    fit,
    s,
    ground (arith, lookup-put k a d l, text_eq_iff a k, text_eq_iff k a, q, alone),
    put-IsKept a d l key spec kept,
  )
]

remove-IsKept : (a : Text) (l : Lists) → IsKept l → IsKept (remove a l)
unfolding remove
remove-IsKept a [] kept = tt
remove-IsKept a ((k, e) ∷ l) (fit, s, alone, kept) = elim (Bool-cases (text_eq k a)) [
  | inl q ↦ rw q (remove-IsKept a l kept)
  | inr q ↦ rw q (fit, s, ground (arith, lookup-remove k a l, alone), remove-IsKept a l kept)
]

abbrev LeavesKept : SetResult → Type 0
LeavesKept (done changed l) = IsKept l
LeavesKept bad_domain = Unit
LeavesKept bad_address = Unit
LeavesKept no_destination = Unit

set_key-LeavesKept :
    (a : Text) (d : Destination) (l : Lists) → IsKept l → IsKey a → LeavesKept (set_key a d l)
unfolding set_key
set_key-LeavesKept a d l kept key =
    by_tests (destination_eq d screener) (is_held (lookup a l)) (has_spec (spec_of d))
      (decided_as d (lookup a l)) (λ e. e)
  where
    by_tests :
        (none had spec same : Bool)
        → (spec ≡ true → has_spec (spec_of d) ≡ true)
        → LeavesKept (
            if none
            then (if had then done true (remove a l) else done false l)
            else if not spec
            then no_destination
            else if same
            then done false l
            else done true (put a d l))
    by_tests true true spec same h = remove-IsKept a l kept
    by_tests true false spec same h = kept
    by_tests false had false same h = tt
    by_tests false had true true h = kept
    by_tests false had true false h = put-IsKept a d l key (h refl) kept

set_key-IsKept :
    (a : Text) (d : Destination) (l l' : Lists) (changed : Bool)
    → IsKept l
    → IsKey a
    → set_key a d l ≡ done changed l'
    → IsKept l'
set_key-IsKept a d l l' changed kept key h = subst LeavesKept h (set_key-LeavesKept a d l kept key)

set-IsKey :
    (address : Text) (d : Destination) (l l' : Lists) (changed : Bool)
    → normalise (normalise address) ≡ normalise address
    → (is_domain (normalise address) ≡ true
        → normalise (rest_of (normalise address)) ≡ rest_of (normalise address))
    → set address d l ≡ done changed l'
    → IsKey (normalise address) × (set_key (normalise address) d l ≡ done changed l')
unfolding set
set-IsKey address d l l' changed normal rest h =
    let a = normalise address in
    elim (Bool-cases (is_domain a)) [
      | inl e ↦ rw e ((normal, (ground (arith, h, e), rest e)), ground (arith, h, e))
      | inr e ↦ rw e ((normal, ground (arith, h, e)), ground (arith, h, e))
    ]

-- If the lists are as Set keeps them, and normalise leaves the key as it is, and the domain of a domain
-- key, then the lists after a decision that Set does not refuse are as Set keeps them.
pub set-IsKept :
    (address : Text) (d : Destination) (l l' : Lists) (changed : Bool)
    → IsKept l
    → normalise (normalise address) ≡ normalise address
    → (is_domain (normalise address) ≡ true
        → normalise (rest_of (normalise address)) ≡ rest_of (normalise address))
    → set address d l ≡ done changed l'
    → IsKept l'
set-IsKept address d l l' changed kept normal rest h =
    let (key, k) = set-IsKey address d l l' changed normal rest h in
    set_key-IsKept (normalise address) d l l' changed kept key k
