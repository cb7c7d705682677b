-- ===== src/DavSync/Left.antt =====
-- internal/mirror/forget.go: forgetting the collection at one URL leaves those at another.
use mailbox_cli.Prelude.{
  ℕ, ◌≡◌, refl, Bool, false, ◌&&◌, not, List, [], ◌∷◌, Text, text_eq, text_eq_iff, arith, ◌==◌,
  select, any_of,
}
use mailbox_cli.DavSync.Types.{Collection, Object}
use mailbox_cli.DavSync.Store.{is_on, find_object}
use mailbox_cli.DavSync.Converges.{is_collection, token_at}

-- The rows that forgetting a URL leaves.
module _ (id : ℕ) (url gone : Text) (ne : text_eq gone url ≡ false) where
  abbrev pub left : List Collection → List Collection
  left = select (λ c. not (text_eq c.url gone))

  abbrev pub strays : List Collection → Bool
  strays = any_of (λ c. c.id == id && not (text_eq c.url url))

  pub is_collection-left :
      (cs : List Collection) → strays cs ≡ false → is_collection id (left cs) ≡ is_collection id cs
  is_collection-left [] h = refl
  is_collection-left (c ∷ cs) h = ground (
    arith,
    h,
    ne,
    is_collection-left cs,
    text_eq_iff c.url gone,
    text_eq_iff c.url url,
    text_eq_iff gone url,
  )

  pub strays-left : (cs : List Collection) → strays cs ≡ false → strays (left cs) ≡ false
  strays-left [] h = refl
  strays-left (c ∷ cs) h = ground (arith, h, strays-left cs)

  pub token_at-left :
      (cs : List Collection) → strays cs ≡ false → token_at id (left cs) ≡ token_at id cs
  token_at-left [] h = refl
  token_at-left (c ∷ cs) h = ground (
    arith,
    h,
    ne,
    token_at-left cs,
    text_eq_iff c.url gone,
    text_eq_iff c.url url,
    text_eq_iff gone url,
  )

  is_on-left :
      (cs : List Collection) (o : Object)
      → strays cs ≡ false
      → o.collection_id ≡ id
      → is_on gone cs o ≡ false
  unfolding is_on
  is_on-left [] o h on = refl
  is_on-left (c ∷ cs) o h on = ground (
    arith,
    h,
    ne,
    on,
    is_on-left cs o,
    text_eq_iff c.url gone,
    text_eq_iff c.url url,
    text_eq_iff gone url,
  )

  pub find_object-left :
      (key : Text) (cs : List Collection) (os : List Object)
      → strays cs ≡ false
      → find_object id key (select (λ o. not (is_on gone cs o)) os) ≡ find_object id key os
  unfolding find_object
  find_object-left key cs [] h = refl
  find_object-left key cs (o ∷ os) h =
      ground (arith, find_object-left key cs os h, is_on-left cs o h)
