-- ===== src/MailSync/Sweep.antt =====
-- internal/sync/mailsync/reconciler.go, SyncAll and inOrder: one cycle over many folders.
use mailbox_cli.Prelude.{Option, none, some, List, [], ◌∷◌, ◌++◌, Text, text_eq, if◌then◌else◌}
use mailbox_cli.Mirror.Types.{Mirror}
use mailbox_cli.Mirror.Messages.{has_text}
use mailbox_cli.MailSync.Plan.{FolderStatus}
use mailbox_cli.MailSync.Types.{Driver, Outcome, Failure, status_failed, Try, ok, fail}
use mailbox_cli.MailSync.Reconciler.{apply}

-- byName: of two statuses with one name the later one counts.
unfoldable pub find_status : Text → List FolderStatus → Option FolderStatus
find_status name [] = none
find_status name (st ∷ more) = elim (find_status name more) [
  | some later ↦ some later
  | none ↦ if text_eq st.name name then some st else none
]

abbrev pub mark_seen : Text → Option FolderStatus → List Text → List Text
mark_seen name none seen = seen
mark_seen name (some _) seen = name ∷ seen

abbrev pub put_found : Option FolderStatus → List FolderStatus → List FolderStatus
put_found none out = out
put_found (some st) out = st ∷ out

-- The first loop of inOrder: the statuses that were asked for, and their names.
unfoldable pub asked : List FolderStatus → List Text → List Text → List FolderStatus × List Text
asked statuses [] seen = ([], seen)
asked statuses (name ∷ names) seen =
    let found = if has_text name seen then none else find_status name statuses in
    let (out, seen') = asked statuses names (mark_seen name found seen) in
    (put_found found out, seen')

-- The second loop: the others.
unfoldable pub unasked : List FolderStatus → List Text → List FolderStatus
unasked [] seen = []
unasked (st ∷ more) seen =
    let known = has_text st.name seen in
    let out = unasked more (if known then seen else st.name ∷ seen) in
    if known then out else st ∷ out

unfoldable pub in_order : List Text → List FolderStatus → List FolderStatus
in_order folders statuses =
    let (first, seen) = asked statuses folders [] in first ++ unasked statuses seen

-- What SyncAll returns: the outcomes by folder, and the first error with its folder.
pub record Swept : Type 0 where
  pub outcomes : List (Text × Outcome)
  pub first_failure : Option (Text × Failure)

-- What one folder adds in front of what the later ones give.
abbrev pub add_swept : Text → Try Outcome → Swept → Swept
add_swept name (ok out) s = record s { outcomes = (name, out) ∷ s.outcomes }
add_swept name (fail e) s = record s { first_failure = some (name, e) }

-- A folder that fails does not stop the others.
unfoldable pub sweep : Driver → List FolderStatus → Mirror → Swept × Mirror
sweep d [] m = (record { outcomes = []; first_failure = none }, m)
sweep d (st ∷ more) m =
    let (r, m') = apply d st.name st m in
    let (s, end) = sweep d more m' in (add_swept st.name r s, end)

unfoldable pub sweep_answer :
    Driver → List Text → Option (List FolderStatus) → Mirror → Try Swept × Mirror
sweep_answer d folders none m = (fail status_failed, m)
sweep_answer d folders (some statuses) m =
    let (s, end) = sweep d (in_order folders statuses) m in (ok s, end)

unfoldable pub sync_all : Driver → List Text → Mirror → Try Swept × Mirror
sync_all d folders m = sweep_answer d folders (d.status folders) m
