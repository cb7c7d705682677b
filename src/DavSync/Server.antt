-- ===== src/DavSync/Server.antt =====
-- What a DAV server answers for one collection (RFC 6578, RFC 4791), on which internal/sync/davsync
-- relies.
use mailbox_cli.Prelude.{
  ◌≡◌, ◌≢◌, Bool, true, false, Option, none, some, List, [], ◌∷◌, Text, text_eq, if◌then◌else◌,
  any_of, All,
}
use mailbox_cli.DavSync.Types.{Collection, Shelf, Change, Changes, Driver, ok}
use mailbox_cli.DavSync.Store.{href_key}
use mailbox_cli.DavSync.Reconciler.{ask_changes}
use mailbox_cli.DavSync.Held.{Version, held_at}

abbrev pub is_version : Option Version → Bool
is_version none = false
is_version (some _) = true

-- An object that is fetched by its href, if the server has it.
abbrev pub fetched : Text → Option Version → List Change → List Change
fetched href none rest = rest
fetched href (some v) rest =
    record { href = href; etag = v.etag; text = v.text; deleted = false } ∷ rest

-- The answer of a multiget: the objects that the server has at the keys of the hrefs.
abbrev pub fetch : (Text → Text) → (Text → Option Version) → List Text → List Change
fetch key at [] = []
fetch key at (href ∷ hrefs) = fetched href (at (key href)) (fetch key at hrefs)

-- An item of a sync answer says what the server has: nothing where it is deleted, the version that it
-- carries, or some version where it carries none.
abbrev pub Says : Change → Option Version → Type 0
Says it v =
    if it.deleted
    then v ≡ none
    else if text_eq it.text []
    then is_version v ≡ true
    else v ≡ some (record { etag = it.etag; text = it.text })

-- Some item is about a key.
abbrev pub is_touched : Driver → Text → List Change → Bool
is_touched d key = any_of (λ it. text_eq (href_key d it.href) key)

-- No version is empty.
abbrev pub HasText : Option Version → Type 0
HasText none = Unit
HasText (some v) = v.text ≢ []

-- The driver answers from one state of the collection, in which `at` gives the version at each key:
-- every item says what the server has, what no item is about is as it was at the token (nowhere held,
-- for a sync from nothing), and a multiget fetches what there is.
pub record Honest (d : Driver) (c : Collection) (full : Bool) (ch : Changes)
    (at : Text → Option Version) (m : Shelf) : Type 0 where
  pub answers : ask_changes d c ≡ ok (full, ch)
  pub says : All (λ it. Says it (at (href_key d it.href))) ch.items
  pub complete :
      (key : Text)
      → is_touched d key ch.items ≡ false
      → at key ≡ (if full then none else held_at c.id key m)
  pub fetches : (hrefs : List Text) → d.multi_get c.url hrefs ≡ some (fetch (href_key d) at hrefs)
  pub texts : (key : Text) → HasText (at key)
