-- ===== src/MailSync/Reconciler.antt =====
-- internal/sync/mailsync/reconciler.go: one cycle for a folder. What a cycle writes lands in one
-- transaction: a step that fails leaves the Mirror as it was, but for the journal.
use mailbox_cli.Prelude.{
  ℕ, suc, ◌+◌, Bool, ◌||◌, not, Option, none, some, List, [], ◌∷◌, ◌++◌, map, Text, codes, leb,
  ◌==◌, if◌then◌else◌, select, length, mem,
}
use mailbox_cli.Mirror.Types.{FolderState, Placement, Mirror, Intent}
use mailbox_cli.Mirror.Tx.{
  folder_state, write_intent, drop_placements, delete_placements, set_flags, placement, sort, uids,
}
use mailbox_cli.Mirror.Messages.{thread_of}
use mailbox_cli.MailSync.Plan.{
  Action, resync, incremental, FolderStatus, Plan, make_plan, diff_uids,
}
use mailbox_cli.MailSync.Types.{
  Envelope, FlagUpdate, Driver, PlacementDelta, Outcome, no_outcome, status_failed, not_on_server,
  all_uids_failed, fetch_envelopes_failed, changed_flags_failed, Try, ok, fail, ask, ◌>>=◌,
}
use mailbox_cli.MailSync.Place.{Placing, place, fetch_bodies, finish}

-- What a transaction commits.
abbrev pub Commit : Type 0
Commit = Outcome × Mirror

abbrev pub rebuild_outcome : Placing → ℕ → Outcome
rebuild_outcome pl fetched = record (no_outcome resync) {
  new_messages = length pl.want_bodies;
  bodies_fetched = fetched;
  remapped = pl.remapped;
}

unfoldable pub rebuild : Driver → Text → FolderStatus → Mirror → Try Commit
rebuild d folder remote m = do
  found ← ask all_uids_failed (d.all_uids folder)
  envs ← ask fetch_envelopes_failed (d.fetch_envelopes folder found)
  let pl = place folder envs (drop_placements folder m)
  done ← fetch_bodies d folder pl.want_bodies pl.ids pl.mirror
  ok (rebuild_outcome pl done.1, finish folder remote done.0)

-- Zero asks for nothing.
unfoldable pub ask_changed : Driver → Text → ℕ → Try (List FlagUpdate)
ask_changed d folder since =
    if since == 0 then ok [] else ask changed_flags_failed (d.changed_flags folder since)

-- The uids at or above the first one not seen here. Zero asks for nothing.
unfoldable pub new_uids : ℕ → List FlagUpdate → List ℕ
new_uids from changed =
    if from == 0
    then []
    else sort (map (λ (u : FlagUpdate). u.uid) (select (λ u. leb from u.uid) changed))

unfoldable pub ask_envelopes : Driver → Text → List ℕ → Try (List Envelope)
ask_envelopes d folder [] = ok []
ask_envelopes d folder (uid ∷ wanted) =
    ask fetch_envelopes_failed (d.fetch_envelopes folder (uid ∷ wanted))

unfoldable pub ask_uids : Driver → Text → Bool → Try (List ℕ)
ask_uids d folder diff = if diff then ask all_uids_failed (d.all_uids folder) else ok []

abbrev pub delta_of : Text → Option Placement → List PlacementDelta
delta_of folder none = []
delta_of folder (some p) = record { message_id = p.message_id; folder = folder } ∷ []

abbrev pub Flagged : Type 0
Flagged = Mirror × List PlacementDelta × ℕ

abbrev pub report_flagged : List PlacementDelta → Flagged → Flagged
report_flagged deltas (m, flagged, n) = (m, deltas ++ flagged, suc n)

-- The flag changes of messages that are not new: the Mirror, what is reported, and their number.
unfoldable pub write_flags : Text → List ℕ → List FlagUpdate → Mirror → Flagged
write_flags folder fresh [] m = (m, [], 0)
write_flags folder fresh (u ∷ changed) m =
    let is_new = mem u.uid fresh in
    let rest =
      write_flags folder fresh changed (if is_new then m else set_flags folder u.uid u.flags m) in
    if is_new then rest else report_flagged (delta_of folder (placement folder u.uid m)) rest

-- The placements that are new to the Mirror, and their threads, each once.
unfoldable pub grown : Text → List ℕ → Mirror → List (ℕ × ℕ) → List PlacementDelta × List ℕ
grown folder known m [] = ([], [])
grown folder known m ((uid, id) ∷ ids) =
    let (added, threads) = grown folder known m ids in
    let t = thread_of id m.messages in
    if mem uid known then (added, threads) else (
      record { message_id = id; folder = folder } ∷ added,
      if t == 0 || mem t threads then threads else t ∷ threads,
    )

unfoldable pub gone_deltas : Text → List ℕ → Mirror → List PlacementDelta
gone_deltas folder [] m = []
gone_deltas folder (uid ∷ gone) m =
    delta_of folder (placement folder uid m) ++ gone_deltas folder gone m

-- The uids to delete: those held before the transaction, and the new ones, that the server does
-- not list.
unfoldable pub expunged_uids : Bool → Text → List ℕ → List ℕ → Mirror → List ℕ
expunged_uids diff folder fresh listed m =
    if diff then diff_uids (sort (uids folder m ++ fresh)) listed else []

abbrev pub cycle_outcome :
    Flagged
    → Placing
    → List PlacementDelta × List ℕ
    → List Envelope
    → List ℕ
    → Mirror × ℕ
    → Text
    → Outcome
cycle_outcome fl pl more envs gone done folder = record {
  action = incremental;
  new_messages = length envs;
  flags_changed = fl.2;
  expunged = length gone;
  bodies_fetched = done.1;
  remapped = pl.remapped;
  new_threads = sort more.1;
  added = more.0;
  gone = gone_deltas folder gone done.0;
  flagged = fl.1;
}

-- The writes of an incremental cycle over the Mirror `m` from before the transaction.
unfoldable pub write_cycle :
    Driver
    → Text
    → FolderStatus
    → Bool
    → List FlagUpdate
    → List ℕ
    → List Envelope
    → List ℕ
    → Mirror
    → Try Commit
write_cycle d folder remote diff changed fresh envs listed m = do
  let fl = write_flags folder fresh changed m
  let pl = place folder envs fl.0
  let more = grown folder (uids folder m) pl.mirror pl.ids
  done ← fetch_bodies d folder pl.want_bodies pl.ids pl.mirror
  let gone = expunged_uids diff folder fresh listed m
  ok (
    cycle_outcome fl pl more envs gone done folder,
    finish folder remote (delete_placements folder gone done.0),
  )

-- An expunge and an arrival in one cycle leave the count where it was.
unfoldable pub needs_diff : FolderState → FolderStatus → Plan → List ℕ → Bool
needs_diff local remote plan fresh =
    plan.expunge_diff || not (local.count + length fresh == remote.num_messages)

unfoldable pub incremental_cycle :
    Driver → Text → FolderState → FolderStatus → Plan → Mirror → Try Commit
incremental_cycle d folder local remote plan m = do
  changed ← ask_changed d folder plan.flags_since
  let fresh = new_uids plan.new_from changed
  let diff = needs_diff local remote plan fresh
  envs ← ask_envelopes d folder fresh
  listed ← ask_uids d folder diff
  write_cycle d folder remote diff changed fresh envs listed m

-- A failed transaction is rolled back.
unfoldable pub settle : Try Commit → Mirror → Try Outcome × Mirror
settle (ok (out, m')) m = (ok out, m')
settle (fail e) m = (fail e, m)

unfoldable pub action_text : Action → Text
action_text resync = codes "resync"
action_text incremental = codes "incremental"
action_text Action.none = codes "none"

-- The switch of apply on the action; the journal is written first.
unfoldable pub perform :
    Driver → Text → FolderState → FolderStatus → Plan → Action → Mirror → Try Outcome × Mirror
perform d folder local remote plan Action.none m = (ok (no_outcome Action.none), m)
perform d folder local remote plan resync m =
    let m' = write_intent folder (action_text resync) m in settle (rebuild d folder remote m') m'
perform d folder local remote plan incremental m =
    let m' = write_intent folder (action_text incremental) m in
    settle (incremental_cycle d folder local remote plan m') m'

unfoldable pub apply : Driver → Text → FolderStatus → Mirror → Try Outcome × Mirror
apply d folder remote m =
    let local = folder_state m folder in
    let plan = make_plan local remote in perform d folder local remote plan plan.action m

unfoldable pub apply_first :
    Driver → Text → Option (List FolderStatus) → Mirror → Try Outcome × Mirror
apply_first d folder none m = (fail status_failed, m)
apply_first d folder (some []) m = (fail not_on_server, m)
apply_first d folder (some (st ∷ more)) m = apply d folder st m

unfoldable pub sync : Driver → Text → Mirror → Try Outcome × Mirror
sync d folder m = apply_first d folder (d.status (folder ∷ [])) m

-- Resume redoes each folder that the journal names, up to the first failure.
unfoldable pub resume_from : Driver → List Intent → Mirror → Try (Unit {0}) × Mirror
resume_from d [] m = (ok tt, m)
resume_from d (i ∷ more) m =
    let (r, m') = sync d i.folder m in
    elim r [ fail e ↦ (fail e, m') | ok out ↦ resume_from d more m' ]

unfoldable pub resume : Driver → Mirror → Try (Unit {0}) × Mirror
resume d m = resume_from d m.journal m
