-- ===== src/MailSync/Failures.antt =====
-- internal/sync/mailsync/reconciler.go: what a cycle leaves when it fails, and when it commits.
use mailbox_cli.Prelude.{
  ℕ, ◌≡◌, ◌≢◌, refl, Bool, true, false, not, none, List, [], ◌∷◌, Text, text_eq, text_eq_refl,
  arith, select, any_of,
}
use mailbox_cli.Mirror.Types.{Mirror, Intent, FolderState}
use mailbox_cli.Mirror.Tx.{folder_state, write_intent, put_intent, sort, placed}
use mailbox_cli.Mirror.Placements.{placed-delete_placements}
use mailbox_cli.Mirror.Types.{synced}
use mailbox_cli.MailSync.Plan
use mailbox_cli.MailSync.Plan.{Action, resync, incremental, FolderStatus, Plan, make_plan}
use mailbox_cli.MailSync.Decision.{Continues}
use mailbox_cli.MailSync.Types.{Driver, Failure, Try, ok, fail, ◌>>=◌}
use mailbox_cli.MailSync.Place.{place, place_all, fetch_bodies}
use mailbox_cli.MailSync.Reconciler.{
  Commit, rebuild, ask_changed, new_uids, ask_envelopes, ask_uids, write_flags, write_cycle,
  incremental_cycle, needs_diff, expunged_uids, settle, perform, apply, action_text,
}
use mailbox_cli.MailSync.Writes.{placements-finish}

abbrev pub names : Text → List Intent → Bool
names folder = any_of (λ i. text_eq i.folder folder)

names-put_intent :
    (folder text : Text) (js : List Intent)
    → names folder (put_intent (record { folder = folder; intent = text }) js) ≡ true
unfolding put_intent
names-put_intent folder text [] = rw (text_eq_refl folder)
names-put_intent folder text (j ∷ js) =
    ground (arith, names-put_intent folder text js, text_eq_refl folder)

pub names-clear_intent :
    (folder : Text) (js : List Intent)
    → names folder (select (λ i. not (text_eq i.folder folder)) js) ≡ false
names-clear_intent folder [] = refl
names-clear_intent folder (j ∷ js) = ground (arith, names-clear_intent folder js)

settle-fail :
    (t : Try Commit) (m : Mirror) (e : Failure) → (settle t m).0 ≡ fail e → (settle t m).1 ≡ m
unfolding settle
settle-fail (ok (out, m')) m e h = cc
settle-fail (fail x) m e h = refl

-- What a failed cycle has written: an entry of the journal for the folder, and nothing else.
pub record OnlyJournaled (folder : Text) (m m' : Mirror) : Type 0 where
  pub same_folders : m'.folders ≡ m.folders
  pub same_messages : m'.messages ≡ m.messages
  pub same_placements : m'.placements ≡ m.placements
  pub journaled : names folder m'.journal ≡ true

written-OnlyJournaled :
    (folder text : Text) (m m' : Mirror)
    → m' ≡ write_intent folder text m
    → OnlyJournaled folder m m'
unfolding write_intent
written-OnlyJournaled folder text m m' e = record {
  same_folders = rw e;
  same_messages = rw e;
  same_placements = rw e;
  journaled = rw e (names-put_intent folder text m.journal);
}

perform_failed :
    (d : Driver) (folder : Text) (local : FolderState) (remote : FolderStatus) (plan : Plan)
    (a : Action) (m : Mirror) (e : Failure)
    → (perform d folder local remote plan a m).0 ≡ fail e
    → OnlyJournaled folder m (perform d folder local remote plan a m).1
unfolding perform
perform_failed d folder local remote plan Plan.none m e h = cc
perform_failed d folder local remote plan resync m e h =
    written-OnlyJournaled folder (action_text resync) m _
      (settle-fail (rebuild d folder remote (write_intent folder (action_text resync) m)) _ e h)
perform_failed d folder local remote plan incremental m e h =
    written-OnlyJournaled folder (action_text incremental) m _ (
      settle-fail
        (incremental_cycle d folder local remote plan
          (write_intent folder (action_text incremental) m))
        _ e h)

-- If a request of a cycle fails, the folders, the messages and the placements of the Mirror are as
-- they were before the cycle, and the journal names the folder, so that Resume redoes it.
pub failed_cycle_keeps :
    (d : Driver) (folder : Text) (remote : FolderStatus) (m : Mirror) (e : Failure)
    → (apply d folder remote m).0 ≡ fail e
    → OnlyJournaled folder m (apply d folder remote m).1
unfolding apply
failed_cycle_keeps d folder remote m e h =
    let local = folder_state m folder in
    let plan = make_plan local remote in perform_failed d folder local remote plan plan.action m e h

ask_changed-zero :
    (d : Driver) (folder : Text) (since : ℕ) → since ≡ 0 → ask_changed d folder since ≡ ok []
unfolding ask_changed
ask_changed-zero d folder since z = ground arith

new_uids-nil : (from : ℕ) → new_uids from [] ≡ []
unfolding new_uids sort
new_uids-nil from = ground arith

-- A server that reports no modseq: what a cycle asks for and writes.
module _ (d : Driver) (folder : Text) (remote : FolderStatus) (plan : Plan) (local : FolderState)
    (m : Mirror) where
  write_cycle-nothing :
      (diff : Bool) (listed : List ℕ) (u : ℕ)
      → placed folder u m.placements ≡ none
      → placed folder u (settle (write_cycle d folder remote diff [] [] [] listed m) m).1.placements
        ≡ none
  unfolding write_cycle write_flags place place_all fetch_bodies settle
  write_cycle-nothing diff listed u h =
      rw
        (
          placements-finish folder remote _,
          placed-delete_placements folder u folder (expunged_uids diff folder [] listed m) m,
          h,
        )
        (ground arith)

  answered :
      (diff : Bool) (t : Try (List ℕ)) (u : ℕ)
      → placed folder u m.placements ≡ none
      → placed folder u
          (settle
            (t >>= λ listed. write_cycle d folder remote diff [] [] [] listed m)
            m).1.placements
        ≡ none
  answered diff (ok listed) u h = write_cycle-nothing diff listed u h
  answered diff (fail e) u h = unfold settle in h

  cycle-nothing :
      plan.flags_since ≡ 0
      → (u : ℕ) → placed folder u m.placements ≡ none
      → placed folder u (settle (incremental_cycle d folder local remote plan m) m).1.placements
        ≡ none
  unfolding incremental_cycle ask_envelopes
  cycle-nothing z u h =
      rw (ask_changed-zero d folder plan.flags_since z, new_uids-nil plan.new_from)
        (answered (needs_diff local remote plan [])
          (ask_uids d folder (needs_diff local remote plan [])) u h)

-- A folder of a server that reports no modseq is never asked for changes.
asks_nothing :
    (local : FolderState) (remote : FolderStatus)
    → Continues local remote
    → local.highest_mod_seq ≡ 0
    → ((make_plan local remote).flags_since ≡ 0) × ((make_plan local remote).action ≢ resync)
unfolding make_plan synced
asks_nothing local remote (v, e, s) z = (ground arith, λ h. ground arith)

perform-nothing :
    (d : Driver) (folder : Text) (local : FolderState) (remote : FolderStatus) (plan : Plan)
    (a : Action) (m : Mirror) (u : ℕ)
    → plan.flags_since ≡ 0
    → a ≢ resync
    → placed folder u m.placements ≡ none
    → placed folder u (perform d folder local remote plan a m).1.placements ≡ none
unfolding perform write_intent
perform-nothing d folder local remote plan Plan.none m u z n h = h
perform-nothing d folder local remote plan resync m u z n h = absurd (n refl)
perform-nothing d folder local remote plan incremental m u z n h =
    cycle-nothing d folder remote plan local (write_intent folder (action_text incremental) m) z u h

-- A folder that continues and that is held at modseq 0, as every folder of a server without
-- CONDSTORE is, gets no new mail: whatever the server answers, a uid that the Mirror does not hold
-- is not held after the cycle either.
pub no_mod_seq_no_mail :
    (d : Driver) (folder : Text) (remote : FolderStatus) (m : Mirror) (u : ℕ)
    → Continues (folder_state m folder) remote
    → (folder_state m folder).highest_mod_seq ≡ 0
    → placed folder u m.placements ≡ none
    → placed folder u (apply d folder remote m).1.placements ≡ none
unfolding apply
no_mod_seq_no_mail d folder remote m u cont z h =
    let local = folder_state m folder in
    let (since, action) = asks_nothing local remote cont z in
    perform-nothing d folder local remote (make_plan local remote) _ m u since action h
