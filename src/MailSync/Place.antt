-- ===== src/MailSync/Place.antt =====
-- internal/sync/mailsync/reconciler.go: envelopes and bodies are written to the Mirror (place,
-- fetchBodies, finish and their helpers).
use mailbox_cli.Prelude.{
  ℕ, suc, ◌&&◌, not, Option, none, some, List, [], ◌∷◌, ◌++◌, Text, text_eq, codes, trim, ◌==◌,
  if◌then◌else◌,
}
use mailbox_cli.Prelude.Decimal.{decimal}
use mailbox_cli.Mirror.Types.{Placement, Mirror}
use mailbox_cli.Mirror.Tx.{put_placement, has_other_placement, save_folder, clear_intent}
use mailbox_cli.Mirror.Messages.{Upserted, upsert_message, set_body, put_parts}
use mailbox_cli.MailSync.Plan.{FolderStatus}
use mailbox_cli.MailSync.Types.{Envelope, Body, Driver, fetch_bodies_failed, Try, ok, ask, ◌>>=◌}

-- fmt.Sprintf("%s:%d", folder, uid)
unfoldable pub synthetic_key : Text → ℕ → Text
synthetic_key folder uid = folder ++ codes ":" ++ decimal uid

unfoldable pub key_of : Envelope → Text → Text
key_of e folder = if text_eq e.message_id [] then synthetic_key folder e.uid else e.message_id

unfoldable pub placement_of : Envelope → Text → ℕ → Placement
placement_of e folder id = record {
  folder = folder;
  uid = e.uid;
  message_id = id;
  flags = e.flags;
  internal_date = e.internal_date;
  size = e.size;
}

-- The message that an envelope points at. A Message-ID that sits in the folder under another uid
-- belongs to another message.
unfoldable pub identify : Text → Envelope → Mirror → Upserted
identify folder e m =
    let first = upsert_message (key_of e folder) e.header m in
    if not (text_eq e.message_id []) && has_other_placement first.id folder e.uid first.mirror
    then upsert_message (synthetic_key folder e.uid) e.header first.mirror
    else first

-- A map from uids to the ids of messages.
unfoldable pub put_id : ℕ → ℕ → List (ℕ × ℕ) → List (ℕ × ℕ)
put_id uid id [] = (uid, id) ∷ []
put_id uid id ((u, i) ∷ ids) =
    let rest = put_id uid id ids in if u == uid then (uid, id) ∷ ids else (u, i) ∷ rest

unfoldable pub find_id : ℕ → List (ℕ × ℕ) → Option ℕ
find_id uid [] = none
find_id uid ((u, i) ∷ ids) = let rest = find_id uid ids in if u == uid then some i else rest

-- What place returns: the Mirror, the uids whose text is still to be fetched, the messages by uid,
-- and how many were recognised.
pub record Placing : Type 0 where
  pub mirror : Mirror
  pub want_bodies : List ℕ
  pub ids : List (ℕ × ℕ)
  pub remapped : ℕ

unfoldable pub place_one : Text → Envelope → Placing → Placing
place_one folder e st =
    let x = identify folder e st.mirror in
    record {
      mirror = put_placement (placement_of e folder x.id) x.mirror;
      want_bodies = if x.has_body then st.want_bodies else st.want_bodies ++ e.uid ∷ [];
      ids = put_id e.uid x.id st.ids;
      remapped = if x.has_body then suc st.remapped else st.remapped;
    }

unfoldable pub place_all : Text → List Envelope → Placing → Placing
place_all folder [] st = st
place_all folder (e ∷ envs) st = place_all folder envs (place_one folder e st)

unfoldable pub place : Text → List Envelope → Mirror → Placing
place folder envs m =
    place_all folder envs (record { mirror = m; want_bodies = []; ids = []; remapped = 0 })

-- What Search matches on.
unfoldable pub search_text : Driver → Text → Text → Text
search_text d plain html =
    if not (text_eq (trim plain) [])
    then plain
    else if text_eq (trim html) []
    then []
    else d.html_to_markdown html

unfoldable pub store_body : Driver → Body → ℕ → Mirror → Mirror
store_body d b id m =
    let plain = d.strip_forwarder_header b.plain in
    let html = d.strip_forwarder_header b.html in
    put_parts id b.parts (set_body id plain html (search_text d plain html) m)

-- A body of a message that was not asked for is skipped.
unfoldable pub store_found : Driver → Body → Option ℕ → Mirror × ℕ → Mirror × ℕ
store_found d b none st = st
store_found d b (some id) (m, n) = (store_body d b id m, suc n)

-- The bodies are stored, and counted.
unfoldable pub store_bodies : Driver → List (ℕ × ℕ) → List Body → Mirror × ℕ → Mirror × ℕ
store_bodies d ids [] st = st
store_bodies d ids (b ∷ bodies) st =
    store_bodies d ids bodies (store_found d b (find_id b.uid ids) st)

-- fetchBodies asks for nothing if no text is missing.
unfoldable pub fetch_bodies : Driver → Text → List ℕ → List (ℕ × ℕ) → Mirror → Try (Mirror × ℕ)
fetch_bodies d folder [] ids m = ok (m, 0)
fetch_bodies d folder (uid ∷ uids) ids m = do
  bodies ← ask fetch_bodies_failed (d.fetch_bodies folder (uid ∷ uids))
  ok (store_bodies d ids bodies (m, 0))

-- finish: the new sync state, and the journal cleared, in one transaction with the rows.
unfoldable pub finish : Text → FolderStatus → Mirror → Mirror
finish folder remote m = clear_intent folder (
    save_folder
      (record {
        name = folder;
        uid_validity = remote.uid_validity;
        uid_next = remote.uid_next;
        highest_mod_seq = remote.highest_mod_seq;
      })
      m)
