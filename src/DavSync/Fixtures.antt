-- ===== src/DavSync/Fixtures.antt =====
-- Test data: two collections, a server that has moved on, and one that answers without the objects.
use mailbox_cli.Prelude.{
  ℕ, Bool, true, false, Option, none, some, List, [], ◌∷◌, Text, codes, text_eq, if◌then◌else◌,
}
use mailbox_cli.DavSync.Types.{
  Collection, Object, Shelf, Change, Changes, Answer, changes, refused, Driver,
}
use mailbox_cli.DavSync.Reconciler.{bare}
use mailbox_cli.DavSync.Held.{Version}
use mailbox_cli.DavSync.Discover.{Config}
use mailbox_cli.DavSync.Writer.{WriteDriver}
use mailbox_cli.DavSync.Server.{fetch}

abbrev pub events : Collection
events = record {
  id = 1;
  kind = codes "events";
  url = codes "u";
  name = codes "Work";
  color = [];
  sync_token = codes "t1";
}

abbrev pub tasks : Collection
tasks = record {
  id = 2;
  kind = codes "tasks";
  url = codes "v";
  name = codes "Jobs";
  color = [];
  sync_token = codes "s1";
}

abbrev change : Text → Text → Text → Bool → Change
change href etag text deleted = record { href = href; etag = etag; text = text; deleted = deleted }

abbrev row : ℕ → Collection → Text → Text → Object
row id c href text = record (bare c (change href (codes "1") text false)) { id = id }

abbrev pub held : Shelf
held = record {
  collections = events ∷ tasks ∷ [];
  objects =
      row 1 events (codes "a") (codes "old")
      ∷ row 2 events (codes "b") (codes "two")
      ∷ row 3 tasks (codes "a") (codes "job")
      ∷ [];
}

-- Since the token, a has changed, b is gone and c has arrived; a is named without its text.
abbrev pub moved : Changes
moved = record {
  token = codes "t2";
  items =
      change (codes "a") (codes "2") [] false
      ∷ change (codes "b") [] [] true
      ∷ change (codes "c") (codes "1") (codes "three") false
      ∷ [];
}

abbrev pub has : Text → Option Version
has key =
    if text_eq (codes "a") key
    then some (record { etag = codes "2"; text = codes "new" })
    else if text_eq (codes "c") key
    then some (record { etag = codes "1"; text = codes "three" })
    else none

-- A server that answers one sync and every multiget with what is given. The parsers read nothing, and
-- every href is its own key.
abbrev pub server : Answer → (List Text → Option (List Change)) → Driver
server answer get = record {
  collections = ([], false);
  sync = λ url token. answer;
  multi_get = λ url hrefs. get hrefs;
  url_path = λ url. none;
  parse_card = λ text. none;
  parse_calendar = λ text. none;
}

abbrev pub sound : Driver
sound = server (changes moved) (λ hrefs. some (fetch (λ href. href) has hrefs))

-- A sync answer whose one item comes without its text.
abbrev pub unsent : Changes
unsent = record { token = codes "t2"; items = change (codes "a") (codes "2") [] false ∷ [] }

abbrev pub lossy : Driver
lossy = server (changes unsent) (λ hrefs. some [])

-- A server that was partly reached: it found another collection, and not those that are held.
abbrev pub partly : Driver
partly = record sound {
  collections = (
    record { kind = codes "events"; url = codes "w"; name = codes "Home"; color = [] } ∷ [],
    true,
  );
}

abbrev pub config : Config
config = record { exclude = codes "jobs" ∷ []; colors = (codes "home", codes "red") ∷ [] }

-- A server that takes a put without an ETag, and is read back from.
abbrev pub after : Driver
after = server refused (λ hrefs. some (change (codes "n") (codes "9") (codes "kept") false ∷ []))

abbrev pub writes : WriteDriver
writes = record {
  reads = sound;
  put = λ url raw if_match. some ([], after);
  delete = λ url etag. true;
}

-- A collection at the root of its server.
abbrev pub at_root : Collection
at_root = record events { url = codes "https://h/" }
