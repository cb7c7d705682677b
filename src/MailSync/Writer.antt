-- ===== src/MailSync/Writer.antt =====
-- internal/sync/mailsync/write.go: a change is made on the server, and the Mirror takes what the
-- server acknowledges.
use mailbox_cli.Prelude.{
  ℕ, Bool, true, false, ◌&&◌, not, Option, none, some, List, [], ◌∷◌, ◌++◌, map, Text, text_ltb,
  codes, text_eq, ◌==◌, if◌then◌else◌, select, any_of,
}
use mailbox_cli.Prelude.Cuts.{equal_fold}
use mailbox_cli.Mirror.Types.{Placement, Mirror}
use mailbox_cli.Mirror.Tx.{delete_placements, put_placement, placed, set_flags}
use mailbox_cli.MailSync.Types.{FlagUpdate}
use mailbox_cli.MailSync.Place.{find_id}

-- One placement to act on.
pub record Ref : Type 0 where
  pub folder : Text
  pub uid : ℕ

-- What became of one of them. A new uid of zero is one that the server did not say.
pub record Result : Type 0 where
  pub ref : Ref
  pub new_folder : Text
  pub new_uid : ℕ
  pub flags : List Text

-- The writing requests of the driver; `none` is an error. A move answers with the new uids.
pub record Writer : Type 0 where
  pub mirrored : List Text
  pub store_flags : Text → List ℕ → List Text → List Text → Option (List FlagUpdate)
  pub move : Text → List ℕ → Text → Option (List (ℕ × ℕ))

pub data WriteFailure : Type 0 where
  refused already_there not_held : WriteFailure

-- What a write returns, with the Mirror that it leaves.
pub record Written : Type 0 where
  pub results : List Result
  pub failure : Option WriteFailure
  pub mirror : Mirror

unfoldable pub mirrors : Writer → Text → Bool
mirrors w folder = any_of (λ m. equal_fold m folder) w.mirrored

-- A folder is put in its place in a sorted list, once.
unfoldable pub insert_folder : Text → List Text → List Text
insert_folder f [] = f ∷ []
insert_folder f (g ∷ gs) =
    let rest = insert_folder f gs in
    if text_eq f g then g ∷ gs else if text_ltb f g then f ∷ g ∷ gs else g ∷ rest

-- The folders of the refs, each once, in order.
unfoldable pub folders_of : List Ref → List Text
folders_of [] = []
folders_of (r ∷ refs) = insert_folder r.folder (folders_of refs)

unfoldable pub uids_in : Text → List Ref → List ℕ
uids_in folder refs = map (λ (r : Ref). r.uid) (select (λ r. text_eq r.folder folder) refs)

-- What follows a folder: nothing, if it failed.
unfoldable pub after_folder : Written → Option WriteFailure → Written → Written
after_folder st (some e) rest = st
after_folder st none rest = record rest { results = st.results ++ rest.results }

unfoldable pub each_folder :
    (Text → List ℕ → Mirror → Written) → List Ref → List Text → Mirror → Written
each_folder f refs [] m = record { results = []; failure = none; mirror = m }
each_folder f refs (folder ∷ folders) m =
    let st = f folder (uids_in folder refs) m in
    let rest = each_folder f refs folders st.mirror in after_folder st st.failure rest

unfoldable pub per_folder : (Text → List ℕ → Mirror → Written) → List Ref → Mirror → Written
per_folder f refs m = each_folder f refs (folders_of refs) m

unfoldable pub write_updates : Text → List FlagUpdate → Mirror → Mirror
write_updates folder [] m = m
write_updates folder (u ∷ updates) m =
    write_updates folder updates (set_flags folder u.uid u.flags m)

unfoldable pub flag_result : Text → FlagUpdate → Result
flag_result folder u = record {
  ref = record { folder = folder; uid = u.uid };
  new_folder = [];
  new_uid = 0;
  flags = u.flags;
}

unfoldable pub stored : Text → Mirror → Option (List FlagUpdate) → Written
stored folder m none = record { results = []; failure = some refused; mirror = m }
stored folder m (some updates) = record {
  results = map (flag_result folder) updates;
  failure = none;
  mirror = write_updates folder updates m;
}

unfoldable pub change_flags : Writer → List Ref → List Text → List Text → Mirror → Written
change_flags w refs add remove =
    per_folder (λ folder uids m. stored folder m (w.store_flags folder uids add remove)) refs

unfoldable pub set_seen : Writer → List Ref → Bool → Mirror → Written
set_seen w refs true = change_flags w refs (codes "\\Seen" ∷ []) []
set_seen w refs false = change_flags w refs [] (codes "\\Seen" ∷ [])

unfoldable pub set_label : Writer → List Ref → Text → Bool → Mirror → Written
set_label w refs label true = change_flags w refs (label ∷ []) []
set_label w refs label false = change_flags w refs [] (label ∷ [])

-- Zero where the server did not say.
unfoldable pub new_uid : Option ℕ → ℕ
new_uid none = 0
new_uid (some n) = n

-- A destination that the Mirror does not hold takes the mail out of it.
unfoldable pub relocate : Bool → Text → ℕ → ℕ → Text → Placement → Mirror → Mirror
relocate kept folder uid new dest p m =
    let m' = delete_placements folder (uid ∷ []) m in
    if not (new == 0) && kept then put_placement (record p { folder = dest; uid = new }) m' else m'

abbrev pub move_result : Text → ℕ → Text → ℕ → Result
move_result folder uid dest new = record {
  ref = record { folder = folder; uid = uid };
  new_folder = dest;
  new_uid = new;
  flags = [];
}

-- A uid that the Mirror does not hold ends the loop with an error.
unfoldable pub move_each : Bool → Text → Text → List (ℕ × ℕ) → List ℕ → Mirror → Written
move_each kept folder dest moved [] m = record { results = []; failure = none; mirror = m }
move_each kept folder dest moved (uid ∷ uids) m = elim (placed folder uid m.placements) [
  | none ↦ record { results = []; failure = some not_held; mirror = m }
  | some p ↦
      let new = new_uid (find_id uid moved) in
      let rest = move_each kept folder dest moved uids (relocate kept folder uid new dest p m) in
      record rest { results = move_result folder uid dest new ∷ rest.results }
]

-- A failed transaction is rolled back; the results stay in what is returned.
unfoldable pub committed : Mirror → Written → Option WriteFailure → Written
committed m st none = st
committed m st (some e) = record st { mirror = m }

unfoldable pub move_acked : Writer → Text → Text → List ℕ → Mirror → Option (List (ℕ × ℕ)) → Written
move_acked w folder dest uids m none = record { results = []; failure = some refused; mirror = m }
move_acked w folder dest uids m (some moved) =
    let st = move_each (mirrors w dest) folder dest moved uids m in committed m st st.failure

unfoldable pub move_folder : Writer → Text → Text → List ℕ → Mirror → Written
move_folder w dest folder uids m =
    if equal_fold folder dest
    then record { results = []; failure = some already_there; mirror = m }
    else move_acked w folder dest uids m (w.move folder uids dest)

unfoldable pub move : Writer → List Ref → Text → Mirror → Written
move w refs dest = per_folder (move_folder w dest) refs
