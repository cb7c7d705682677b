-- ===== src/DavSync/Reconciler.antt =====
-- internal/sync/davsync/davsync.go: one collection is brought up to date, in one transaction.
use mailbox_cli.Prelude.{
  ℕ, suc, Bool, true, false, ◌&&◌, not, Option, none, some, List, [], ◌∷◌, ◌++◌, map, Text, codes,
  text_eq, if◌then◌else◌, select,
}
use mailbox_cli.DavSync.Types.{
  Collection, Object, Shelf, Change, Changes, Answer, changes, token_expired, refused, Contact,
  Projection, Driver, ObjectChange, Outcome, sync_failed, multi_get_failed, Try, ok, fail, ask,
  ◌>>=◌,
}
use mailbox_cli.DavSync.Store.{
  set_sync_token, put_object, delete_object, clear_collection, object_by_href,
}

-- An object without a projection.
unfoldable pub bare : Collection → Change → Object
bare c it = record {
  id = 0;
  collection_id = c.id;
  href = it.href;
  etag = it.etag;
  raw = it.text;
  kind = [];
  uid = [];
  summary = [];
  location = [];
  description = [];
  status = [];
  emails = [];
  phones = [];
  start = none;
  stop = none;
  due = none;
  due_all_day = false;
  priority = 0;
  completed = none;
  all_day = false;
  recurring = false;
  repeats_until = none;
}

unfoldable pub with_card : Object → Option Contact → Object
with_card o none = o
with_card o (some card) = record o {
  kind = codes "card";
  uid = card.uid;
  summary = card.name;
  emails = card.emails;
  phones = card.phones;
  location = card.organisation;
  description = card.note;
  status = card.kind;
}

unfoldable pub with_calendar : Object → Option Projection → Object
with_calendar o none = o
with_calendar o (some p) = record o {
  kind = p.kind;
  uid = p.uid;
  summary = p.summary;
  location = p.location;
  description = p.description;
  status = p.status;
  start = p.start;
  stop = p.stop;
  due = p.due;
  due_all_day = p.due_all_day;
  priority = p.priority;
  completed = p.completed;
  all_day = p.all_day;
  recurring = p.recurring;
  repeats_until = p.repeats_until;
}

-- A text that does not parse is stored without a projection.
unfoldable pub project : Driver → Collection → Change → Object
project d c it =
    if text_eq c.kind (codes "cards")
    then with_card (bare c it) (d.parse_card it.text)
    else with_calendar (bare c it) (d.parse_calendar it.text)

abbrev pub is_empty : Text → Bool
is_empty t = text_eq t []

abbrev pub second_answer : Answer → Try (Bool × Changes)
second_answer (changes ch) = ok (true, ch)
second_answer token_expired = fail sync_failed
second_answer refused = fail sync_failed

-- A token that the server has forgotten means to start from nothing.
abbrev pub first_answer : Driver → Collection → Answer → Try (Bool × Changes)
first_answer d c (changes ch) = ok (is_empty c.sync_token, ch)
first_answer d c token_expired = second_answer (d.sync c.url [])
first_answer d c refused = fail sync_failed

-- Whether this is a sync from nothing, and what the server answers.
unfoldable pub ask_changes : Driver → Collection → Try (Bool × Changes)
ask_changes d c = first_answer d c (d.sync c.url c.sync_token)

-- Named and not sent.
abbrev pub is_named : Change → Bool
is_named it = not it.deleted && is_empty it.text

unfoldable pub missing : List Change → List Text
missing items = map (λ (it : Change). it.href) (select is_named items)

-- byHref: of two changes with one href the later one counts.
unfoldable pub find_change : Text → List Change → Option Change
find_change href [] = none
find_change href (f ∷ fs) = elim (find_change href fs) [
  | some later ↦ some later
  | none ↦ if text_eq f.href href then some f else none
]

abbrev pub filled : Change → Option Change → Change
filled it none = it
filled it (some f) = record it { text = f.text; etag = f.etag }

unfoldable pub fill : List Change → List Change → List Change
fill fetched [] = []
fill fetched (it ∷ items) = filled it (find_change it.href fetched) ∷ fill fetched items

-- What was named without being sent is asked for.
unfoldable pub ask_missing : Driver → Collection → List Change → List Text → Try (List Change)
ask_missing d c items [] = ok items
ask_missing d c items (h ∷ hs) = do
  fetched ← ask multi_get_failed (d.multi_get c.url (h ∷ hs))
  ok (fill fetched items)

-- What one change does to an object that is held, or not.
unfoldable pub describe_one : Driver → Collection → Change → Option Object → List ObjectChange
describe_one d c it none =
    if it.deleted
    then []
    else record { object = project d c it; added = true; deleted = false } ∷ []
describe_one d c it (some had) =
    if it.deleted
    then record { object = had; added = false; deleted = true } ∷ []
    else record { object = record (project d c it) { id = had.id }; added = false; deleted = false }
      ∷ []

unfoldable pub describe : Driver → Collection → List Change → Shelf → List ObjectChange
describe d c [] m = []
describe d c (it ∷ items) m =
    let rest = describe d c items m in
    if is_named it then rest else describe_one d c it (object_by_href d c.id it.href m) ++ rest

-- One change in the transaction: the tables, and the numbers changed and deleted.
unfoldable pub write_item : Driver → Collection → Change → Shelf × ℕ × ℕ → Shelf × ℕ × ℕ
write_item d c it (m, changed, gone) =
    if it.deleted
    then (delete_object d c.id it.href m, changed, suc gone)
    else if is_empty it.text
    then (m, changed, gone)
    else (put_object d (project d c it) m, suc changed, gone)

unfoldable pub write_items : Driver → Collection → List Change → Shelf × ℕ × ℕ → Shelf × ℕ × ℕ
write_items d c [] st = st
write_items d c (it ∷ items) st = write_items d c items (write_item d c it st)

-- An object that has arrived has its id once the transaction is committed.
unfoldable pub with_id : ObjectChange → Option Object → ObjectChange
with_id x none = x
with_id x (some o) = record x { object = o }

unfoldable pub with_ids : Driver → Collection → Shelf → List ObjectChange → List ObjectChange
with_ids d c m [] = []
with_ids d c m (x ∷ deltas) =
    (if x.added then with_id x (object_by_href d c.id x.object.href m) else x)
    ∷ with_ids d c m deltas

-- The transaction, with what the items do described before it.
unfoldable pub commit : Driver → Collection → Bool → Text → List Change → Shelf → Outcome × Shelf
commit d c full token items m =
    let deltas = if full then [] else describe d c items m in
    let (written, changed, gone) =
      write_items d c items (if full then clear_collection c.id m else m, 0, 0) in
    let end = set_sync_token c.id token written in
    (
      record { changed = changed; deleted = gone; full = full; objects = with_ids d c end deltas },
      end,
    )

-- A request that fails leaves the tables as they were.
unfoldable pub commit_asked :
    Driver → Collection → Bool → Text → Shelf → Try (List Change) → Try Outcome × Shelf
commit_asked d c full token m (fail e) = (fail e, m)
commit_asked d c full token m (ok items) =
    let (out, end) = commit d c full token items m in (ok out, end)

unfoldable pub sync_asked : Driver → Collection → Shelf → Try (Bool × Changes) → Try Outcome × Shelf
sync_asked d c m (fail e) = (fail e, m)
sync_asked d c m (ok (full, ch)) =
    commit_asked d c full ch.token m (ask_missing d c ch.items (missing ch.items))

-- Reconciler.Sync
unfoldable pub sync : Driver → Collection → Shelf → Try Outcome × Shelf
sync d c m = sync_asked d c m (ask_changes d c)
