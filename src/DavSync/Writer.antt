-- ===== src/DavSync/Writer.antt =====
-- internal/sync/davsync/write.go: an object is written to the server, and then as the server has it.
use mailbox_cli.Prelude.{Bool, false, Option, none, some, List, [], ◌∷◌, Text, if◌then◌else◌}
use mailbox_cli.DavSync.Types.{
  Collection, Object, Shelf, Change, Driver, put_failed, delete_failed, not_found, Try, ok, fail,
  ask,
}
use mailbox_cli.DavSync.Store.{put_object, delete_object, object_by_href}
use mailbox_cli.DavSync.Reconciler.{project, is_empty}
use mailbox_cli.DavSync.Urls.{absolute}

-- WriteDriver. A put answers with the ETag, or none, and leaves a server that is read from then on; a
-- delete answers whether it was done.
pub record WriteDriver : Type 0 where
  pub reads : Driver
  pub put : Text → Text → Text → Option (Text × Driver)
  pub delete : Text → Text → Bool

-- What the multiget that reads an object back says, if it is one object with a text.
unfoldable pub read_one : Text → Change → Option (List Change) → Change
read_one href sent none = sent
read_one href sent (some []) = sent
read_one href sent (some (got ∷ [])) =
    if is_empty got.text then sent else record got { href = href }
read_one href sent (some (got ∷ more ∷ rest)) = sent

-- Without an ETag the object is read back.
unfoldable pub settle : Collection → Text → Text → Text → Driver → Change
settle c href raw etag after =
    let sent : Change = record { href = href; etag = etag; text = raw; deleted = false } in
    if is_empty etag then read_one href sent (after.multi_get c.url (href ∷ [])) else sent

unfoldable pub put_answered :
    WriteDriver → Collection → Text → Text → Shelf → Option (Text × Driver) → Try Object × Shelf
put_answered w c href raw m none = (fail put_failed, m)
put_answered w c href raw m (some (etag, after)) =
    let end = put_object w.reads (project w.reads c (settle c href raw etag after)) m in
    (ask not_found (object_by_href w.reads c.id href end), end)

-- Writer.Put
unfoldable pub put : WriteDriver → Collection → Text → Text → Text → Shelf → Try Object × Shelf
put w c href raw if_match m = put_answered w c href raw m (w.put (absolute c href) raw if_match)

-- Writer.Delete
unfoldable pub delete : WriteDriver → Collection → Object → Shelf → Try Unit × Shelf
delete w c o m =
    if w.delete (absolute c o.href) o.etag
    then (ok tt, delete_object w.reads c.id o.href m)
    else (fail delete_failed, m)
