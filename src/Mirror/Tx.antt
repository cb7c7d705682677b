-- ===== src/Mirror/Tx.antt =====
-- internal/mirror/write.go, mirror.go, forget.go: the reads and writes of the tables. A statement
-- of a transaction is a function of the Mirror; a rollback is the Mirror from before.
use mailbox_cli.Prelude.{
  ℕ, Bool, ◌&&◌, not, Option, none, some, List, [], ◌∷◌, map, Text, text_eq, leb, ◌==◌,
  if◌then◌else◌, select, any_of, length,
}
use mailbox_cli.Mirror.Types.{Placement, FolderRow, FolderState, Intent, Mirror}

-- WHERE account = ? AND folder = ?
abbrev pub sits_in : Text → Placement → Bool
sits_in folder p = text_eq p.folder folder

-- WHERE account = ? AND folder = ? AND uid = ?
abbrev pub sits_at : Text → ℕ → Placement → Bool
sits_at folder uid p = text_eq p.folder folder && p.uid == uid

unfoldable pub find_folder : Text → List FolderRow → Option FolderRow
find_folder name [] = none
find_folder name (f ∷ fs) =
    let rest = find_folder name fs in if text_eq f.name name then some f else rest

abbrev pub never_synced : Text → FolderState
never_synced name = record {
  name = name;
  uid_validity = 0;
  uid_next = 0;
  highest_mod_seq = 0;
  count = 0;
}

abbrev pub state_of : Text → ℕ → Option FolderRow → FolderState
state_of name n none = never_synced name
state_of name n (some f) = record {
  name = name;
  uid_validity = f.uid_validity;
  uid_next = f.uid_next;
  highest_mod_seq = f.highest_mod_seq;
  count = n;
}

-- Mirror.Folder
unfoldable pub folder_state : Mirror → Text → FolderState
folder_state m name =
    state_of name (length (select (sits_in name) m.placements)) (find_folder name m.folders)

unfoldable pub put_intent : Intent → List Intent → List Intent
put_intent i [] = i ∷ []
put_intent i (x ∷ xs) =
    let rest = put_intent i xs in if text_eq x.folder i.folder then i ∷ xs else x ∷ rest

unfoldable pub write_intent : Text → Text → Mirror → Mirror
write_intent folder intent m = record m {
  journal = put_intent (record { folder = folder; intent = intent }) m.journal;
}

unfoldable pub clear_intent : Text → Mirror → Mirror
clear_intent folder m = record m { journal = select (λ i. not (text_eq i.folder folder)) m.journal }

unfoldable pub drop_placements : Text → Mirror → Mirror
drop_placements folder m = record m {
  placements = select (λ p. not (sits_in folder p)) m.placements;
}

-- One DELETE for each uid.
unfoldable pub delete_placements : Text → List ℕ → Mirror → Mirror
delete_placements folder [] m = m
delete_placements folder (uid ∷ uids) m =
    delete_placements folder uids
      (record m { placements = select (λ p. not (sits_at folder uid p)) m.placements })

unfoldable pub put : Placement → List Placement → List Placement
put p [] = p ∷ []
put p (x ∷ xs) = let rest = put p xs in if sits_at p.folder p.uid x then p ∷ xs else x ∷ rest

unfoldable pub put_placement : Placement → Mirror → Mirror
put_placement p m = record m { placements = put p m.placements }

-- The placement at a folder and uid; `none` is ErrNotFound.
unfoldable pub placed : Text → ℕ → List Placement → Option Placement
placed folder uid [] = none
placed folder uid (p ∷ ps) =
    let rest = placed folder uid ps in if sits_at folder uid p then some p else rest

abbrev pub placement : Text → ℕ → Mirror → Option Placement
placement folder uid m = placed folder uid m.placements

unfoldable pub flag : Text → ℕ → List Text → List Placement → List Placement
flag folder uid flags [] = []
flag folder uid flags (p ∷ ps) =
    (if sits_at folder uid p then record p { flags = flags } else p) ∷ flag folder uid flags ps

unfoldable pub set_flags : Text → ℕ → List Text → Mirror → Mirror
set_flags folder uid flags m = record m { placements = flag folder uid flags m.placements }

unfoldable pub put_folder : FolderRow → List FolderRow → List FolderRow
put_folder f [] = f ∷ []
put_folder f (x ∷ xs) =
    let rest = put_folder f xs in if text_eq x.name f.name then f ∷ xs else x ∷ rest

unfoldable pub save_folder : FolderRow → Mirror → Mirror
save_folder f m = record m { folders = put_folder f m.folders }

unfoldable pub insert_sorted : ℕ → List ℕ → List ℕ
insert_sorted x [] = x ∷ []
insert_sorted x (y ∷ ys) = let rest = insert_sorted x ys in if leb x y then x ∷ y ∷ ys else y ∷ rest

-- sort.Slice on uids, and ORDER BY uid
unfoldable pub sort : List ℕ → List ℕ
sort [] = []
sort (x ∷ xs) = insert_sorted x (sort xs)

-- Mirror.UIDs
unfoldable pub uids : Text → Mirror → List ℕ
uids folder m = sort (map (λ p. p.uid) (select (sits_in folder) m.placements))

unfoldable pub has_other_placement : ℕ → Text → ℕ → Mirror → Bool
has_other_placement id folder uid m =
    any_of (λ p. sits_in folder p && p.message_id == id && not (p.uid == uid)) m.placements
