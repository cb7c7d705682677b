-- ===== src/MailSync/Others.antt =====
-- internal/mirror/write.go: what a write to one folder leaves of the rows of another.
-- succeeds or fails.
use mailbox_cli.Prelude.{
  ℕ, ◌≡◌, refl, ◌∙◌, false, not, Option, none, some, List, [], ◌∷◌, Text, text_eq, text_eq_iff,
  arith, select,
}
use mailbox_cli.Mirror.Types.{Header, Message, Placement, FolderRow, Mirror}
use mailbox_cli.Mirror.Tx.{sits_in, sits_at, find_folder, put, flag, put_folder}
use mailbox_cli.Mirror.Messages.{upsert_message, upsert_found, find_message, set_body, put_parts}
use mailbox_cli.MailSync.Plan.{none}
use mailbox_cli.MailSync.Types.{Envelope, Body, Driver}
use mailbox_cli.MailSync.Place.{
  synthetic_key, key_of, identify, find_id, store_body, store_found, store_bodies,
}

pub select-put :
    (g : Text) (p : Placement) (ps : List Placement)
    → sits_in g p ≡ false
    → select (sits_in g) (put p ps) ≡ select (sits_in g) ps
unfolding put
select-put g p [] h = ground arith
select-put g p (x ∷ ps) h = ground (
  arith,
  select-put g p ps h,
  text_eq_iff x.folder p.folder,
  text_eq_iff x.folder g,
  text_eq_iff p.folder g,
)

pub select-flag :
    (g folder : Text) (uid : ℕ) (flags : List Text) (ps : List Placement)
    → text_eq folder g ≡ false
    → select (sits_in g) (flag folder uid flags ps) ≡ select (sits_in g) ps
unfolding flag
select-flag g folder uid flags [] h = refl
select-flag g folder uid flags (x ∷ ps) h = ground (
  arith,
  select-flag g folder uid flags ps h,
  text_eq_iff x.folder folder,
  text_eq_iff x.folder g,
  text_eq_iff folder g,
)

pub select-drop :
    (g folder : Text) (ps : List Placement)
    → text_eq folder g ≡ false
    → select (sits_in g) (select (λ p. not (sits_in folder p)) ps) ≡ select (sits_in g) ps
select-drop g folder [] h = refl
select-drop g folder (x ∷ ps) h = ground (
  arith,
  select-drop g folder ps h,
  text_eq_iff x.folder folder,
  text_eq_iff x.folder g,
  text_eq_iff folder g,
)

pub select-delete :
    (g folder : Text) (uid : ℕ) (ps : List Placement)
    → text_eq folder g ≡ false
    → select (sits_in g) (select (λ p. not (sits_at folder uid p)) ps) ≡ select (sits_in g) ps
select-delete g folder uid [] h = refl
select-delete g folder uid (x ∷ ps) h = ground (
  arith,
  select-delete g folder uid ps h,
  text_eq_iff x.folder folder,
  text_eq_iff x.folder g,
  text_eq_iff folder g,
)

pub find_folder-put_folder :
    (g : Text) (f : FolderRow) (fs : List FolderRow)
    → text_eq f.name g ≡ false
    → find_folder g (put_folder f fs) ≡ find_folder g fs
unfolding find_folder put_folder
find_folder-put_folder g f [] h = ground arith
find_folder-put_folder g f (x ∷ fs) h = ground (
  arith,
  find_folder-put_folder g f fs h,
  text_eq_iff x.name f.name,
  text_eq_iff x.name g,
  text_eq_iff f.name g,
)

folders-upsert :
    (key : Text) (h : Header) (m : Mirror) → (upsert_message key h m).mirror.folders ≡ m.folders
unfolding upsert_message
folders-upsert key h m = found (find_message key m.messages)
  where
    found : (o : Option Message) → (upsert_found key h m o).mirror.folders ≡ m.folders
    found none = unfold upsert_found in refl
    found (some x) = unfold upsert_found in refl

pub folders-identify :
    (folder : Text) (e : Envelope) (m : Mirror) → (identify folder e m).mirror.folders ≡ m.folders
unfolding identify
folders-identify folder e m =
    let first = upsert_message (key_of e folder) e.header m in
    let one = folders-upsert (key_of e folder) e.header m in
    let two = folders-upsert (synthetic_key folder e.uid) e.header first.mirror in
    ground (arith, one, two)

folders-store_found :
    (d : Driver) (b : Body) (o : Option ℕ) (st : Mirror × ℕ)
    → (store_found d b o st).0.folders ≡ st.0.folders
unfolding store_found store_body put_parts set_body
folders-store_found d b none st = refl
folders-store_found d b (some id) (m, n) = refl

pub folders-store_bodies :
    (d : Driver) (ids : List (ℕ × ℕ)) (bodies : List Body) (st : Mirror × ℕ)
    → (store_bodies d ids bodies st).0.folders ≡ st.0.folders
unfolding store_bodies
folders-store_bodies d ids [] st = refl
folders-store_bodies d ids (b ∷ bodies) st =
    folders-store_bodies d ids bodies (store_found d b (find_id b.uid ids) st)
    ∙ folders-store_found d b (find_id b.uid ids) st
