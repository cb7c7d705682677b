-- ===== src/DavSync/Types.antt =====
-- internal/mirror/dav.go and internal/sync/davsync: the data. Instants are seconds, and `none` is the
-- zero time.
use mailbox_cli.Prelude.{ℕ, Bool, Option, List, Text}

-- A row of dav_collections, with the token of the sync that its objects are of.
pub record Collection : Type 0 where
  pub id : ℕ
  pub kind : Text
  pub url : Text
  pub name : Text
  pub color : Text
  pub sync_token : Text

-- A row of dav_objects: the raw text, and what is projected from it.
pub record Object : Type 0 where
  pub id : ℕ
  pub collection_id : ℕ
  pub href : Text
  pub etag : Text
  pub raw : Text
  pub kind : Text
  pub uid : Text
  pub summary : Text
  pub location : Text
  pub description : Text
  pub status : Text
  pub emails : List Text
  pub phones : List Text
  pub start : Option ℕ
  pub stop : Option ℕ
  pub due : Option ℕ
  pub due_all_day : Bool
  pub priority : ℕ
  pub completed : Option ℕ
  pub all_day : Bool
  pub recurring : Bool
  pub repeats_until : Option ℕ

-- The two tables, for one account.
pub record Shelf : Type 0 where
  pub collections : List Collection
  pub objects : List Object

-- What a server says of a collection.
pub record Remote : Type 0 where
  pub kind : Text
  pub url : Text
  pub name : Text
  pub color : Text

-- One object of a sync answer. Empty text is an object that was named and not sent.
pub record Change : Type 0 where
  pub href : Text
  pub etag : Text
  pub text : Text
  pub deleted : Bool

pub record Changes : Type 0 where
  pub token : Text
  pub items : List Change

-- The answer of sync-collection.
pub data Answer : Type 0 where
  changes : Changes → Answer
  token_expired refused : Answer

-- What vcard.Parse and vcal.Parse read from a text.
pub record Contact : Type 0 where
  pub uid : Text
  pub name : Text
  pub organisation : Text
  pub note : Text
  pub emails : List Text
  pub phones : List Text
  pub kind : Text

pub record Projection : Type 0 where
  pub kind : Text
  pub uid : Text
  pub summary : Text
  pub location : Text
  pub description : Text
  pub status : Text
  pub start : Option ℕ
  pub stop : Option ℕ
  pub due : Option ℕ
  pub due_all_day : Bool
  pub priority : ℕ
  pub completed : Option ℕ
  pub all_day : Bool
  pub recurring : Bool
  pub repeats_until : Option ℕ

-- The server. `collections` answers with what it found, and whether some server failed; `none` is
-- an error. The last three are what libraries do: the path of a URL by net/url, which is `none` on an
-- error and on an empty path, and the two parsers, which stand on go-vcard and go-ical.
pub record Driver : Type 0 where
  pub collections : List Remote × Bool
  pub sync : Text → Text → Answer
  pub multi_get : Text → List Text → Option (List Change)
  pub url_path : Text → Option Text
  pub parse_card : Text → Option Contact
  pub parse_calendar : Text → Option Projection

-- One object that a sync wrote or deleted.
pub record ObjectChange : Type 0 where
  pub object : Object
  pub added : Bool
  pub deleted : Bool

pub record Outcome : Type 0 where
  pub changed : ℕ
  pub deleted : ℕ
  pub full : Bool
  pub objects : List ObjectChange

-- Which request failed.
pub data Failure : Type 0 where
  discover_failed sync_failed multi_get_failed put_failed delete_failed not_found : Failure

pub data Try (A : Type 0) : Type 0 where
  ok : A → Try A
  fail : Failure → Try A

infixl 5 ◌>>=◌
abbrev pub ◌>>=◌ : {A B : Type 0} → Try A → (A → Try B) → Try B
ok a >>= f = f a
fail e >>= f = fail e

abbrev pub ask : {A : Type 0} → Failure → Option A → Try A
ask e Option.none = fail e
ask e (Option.some a) = ok a
