-- ===== src/MailSync/Committed.antt =====
-- internal/sync/mailsync/reconciler.go, finish: what a cycle that commits leaves in the journal and
-- among the folders.
use mailbox_cli.Prelude.{
  ℕ, ◌≡◌, ◌≢◌, refl, subst, Bool, false, some, List, [], ◌∷◌, Text, text_eq_refl, arith,
}
use mailbox_cli.Mirror.Types.{FolderRow, FolderState, Mirror}
use mailbox_cli.Mirror.Tx.{
  find_folder, put_folder, save_folder, clear_intent, write_intent, folder_state, drop_placements,
  delete_placements,
}
use mailbox_cli.MailSync.Plan.{Action, resync, incremental, FolderStatus, Plan, make_plan}
use mailbox_cli.MailSync.Types.{
  Driver, FlagUpdate, Envelope, Outcome, Failure, all_uids_failed, fetch_envelopes_failed, Try, ok,
  fail, ask, ◌>>=◌,
}
use mailbox_cli.MailSync.Place.{place, fetch_bodies, finish}
use mailbox_cli.MailSync.Reconciler.{
  Commit, rebuild, rebuild_outcome, write_flags, write_cycle, ask_changed, ask_envelopes, ask_uids,
  new_uids, needs_diff, incremental_cycle, expunged_uids, settle, perform, apply, action_text,
}
use mailbox_cli.MailSync.Failures.{names, names-clear_intent}

-- The row that finish writes.
abbrev pub synced_row : Text → FolderStatus → FolderRow
synced_row folder remote = record {
  name = folder;
  uid_validity = remote.uid_validity;
  uid_next = remote.uid_next;
  highest_mod_seq = remote.highest_mod_seq;
}

-- The journal is clear of the folder, and the folder has the numbers of the status.
pub record IsCommitted (folder : Text) (remote : FolderStatus) (m : Mirror) : Type 0 where
  pub cleared : names folder m.journal ≡ false
  pub saved : find_folder folder m.folders ≡ some (synced_row folder remote)

find_folder-put :
    (f : FolderRow) (fs : List FolderRow) → find_folder f.name (put_folder f fs) ≡ some f
unfolding find_folder put_folder
find_folder-put f [] = ground (arith, text_eq_refl f.name)
find_folder-put f (x ∷ fs) = ground (arith, find_folder-put f fs, text_eq_refl f.name)

module _ (folder : Text) (remote : FolderStatus) where
  finish-IsCommitted : (m : Mirror) → IsCommitted folder remote (finish folder remote m)
  unfolding finish save_folder clear_intent
  finish-IsCommitted m = record {
    cleared = names-clear_intent folder m.journal;
    saved = find_folder-put (synced_row folder remote) m.folders;
  }

  -- A transaction that commits does so by finish.
  record Ends (t : Try Commit) : Type 0 where
    ends : (c : Commit) → t ≡ ok c → IsCommitted folder remote c.1

  fail-Ends : (e : Failure) → Ends (fail e)
  fail-Ends e = record { ends = λ c h. cc }

  ok-Ends : (c : Commit) → IsCommitted folder remote c.1 → Ends (ok c)
  ok-Ends c h = record {
    ends = λ c' e. subst (λ (x : Commit). IsCommitted folder remote x.1) (same c c' e) h;
  }
    where
      same : (a b : Commit) → Path (Try Commit) (ok a) (ok b) → a ≡ b
      same a b e = cc

  bind-Ends :
      {A : Type 0} (t : Try A) (f : A → Try Commit) → ((a : A) → Ends (f a)) → Ends (t >>= f)
  bind-Ends (ok a) f h = h a
  bind-Ends (fail e) f h = fail-Ends e

  module _ (d : Driver) where
    rebuild-Ends : (m : Mirror) → Ends (rebuild d folder remote m)
    unfolding rebuild
    rebuild-Ends m = bind-Ends (ask all_uids_failed (d.all_uids folder)) _ (λ found.
        bind-Ends (ask fetch_envelopes_failed (d.fetch_envelopes folder found)) _ (λ envs.
          let pl = place folder envs (drop_placements folder m) in
          bind-Ends (fetch_bodies d folder pl.want_bodies pl.ids pl.mirror) _ (λ done.
            ok-Ends (rebuild_outcome pl done.1, finish folder remote done.0)
              (finish-IsCommitted done.0))))

    write_cycle-Ends :
        (diff : Bool) (changes : List FlagUpdate) (fresh : List ℕ) (envs : List Envelope)
        (listed : List ℕ) (m : Mirror)
        → Ends (write_cycle d folder remote diff changes fresh envs listed m)
    unfolding write_cycle
    write_cycle-Ends diff changes fresh envs listed m =
        let pl = place folder envs (write_flags folder fresh changes m).0 in
        bind-Ends (fetch_bodies d folder pl.want_bodies pl.ids pl.mirror) _ (λ done. ok-Ends _ (
          finish-IsCommitted
            (delete_placements folder (expunged_uids diff folder fresh listed m) done.0)))

    incremental_cycle-Ends :
        (local : FolderState) (plan : Plan) (m : Mirror)
        → Ends (incremental_cycle d folder local remote plan m)
    unfolding incremental_cycle
    incremental_cycle-Ends local plan m =
        bind-Ends (ask_changed d folder plan.flags_since) _ (λ changes.
          let fresh = new_uids plan.new_from changes in
          let diff = needs_diff local remote plan fresh in
          bind-Ends (ask_envelopes d folder fresh) _ (λ envs.
            bind-Ends (ask_uids d folder diff) _
              (λ listed. write_cycle-Ends diff changes fresh envs listed m)))

    settle-Ends :
        (t : Try Commit) (m : Mirror) (out : Outcome)
        → Ends t
        → (settle t m).0 ≡ ok out
        → IsCommitted folder remote (settle t m).1
    unfolding settle
    settle-Ends (ok (o, m')) m out h e = h.ends (o, m') refl
    settle-Ends (fail x) m out h e = cc

    perform-IsCommitted :
        (local : FolderState) (plan : Plan) (a : Action) (m : Mirror) (out : Outcome)
        → a ≢ Action.none
        → (perform d folder local remote plan a m).0 ≡ ok out
        → IsCommitted folder remote (perform d folder local remote plan a m).1
    unfolding perform
    perform-IsCommitted local plan Action.none m out n h = absurd (n refl)
    perform-IsCommitted local plan resync m out n h =
        let m' = write_intent folder (action_text resync) m in
        settle-Ends (rebuild d folder remote m') m' out (rebuild-Ends m') h
    perform-IsCommitted local plan incremental m out n h =
        let m' = write_intent folder (action_text incremental) m in
        settle-Ends (incremental_cycle d folder local remote plan m') m' out
          (incremental_cycle-Ends local plan m') h

-- A cycle that had something to do and succeeds leaves no entry of the journal for the folder, so
-- that Resume does not redo it, and the folder with the numbers of the status that it was planned
-- from.
pub apply-IsCommitted :
    (d : Driver) (folder : Text) (remote : FolderStatus) (m : Mirror) (out : Outcome)
    → (make_plan (folder_state m folder) remote).action ≢ Action.none
    → (apply d folder remote m).0 ≡ ok out
    → IsCommitted folder remote (apply d folder remote m).1
unfolding apply
apply-IsCommitted d folder remote m out n h =
    perform-IsCommitted folder remote d (folder_state m folder)
      (make_plan (folder_state m folder) remote) _ m out n h
