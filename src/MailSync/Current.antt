-- ===== src/MailSync/Current.antt =====
-- internal/sync/mailsync/reconciler.go, apply: one cycle, whatever its plan, brings a folder of the
-- Mirror to what the server has.
use mailbox_cli.Prelude.{
  ℕ, ◌≡◌, ◌≢◌, refl, sym, subst, ◌∙◌, inl, inr, ◌⊎◌, Bool, true, false, none, List, [], Text, arith,
  select, mem, length, Bool-cases, text_eq, text_eq_ne,
}
use mailbox_cli.Mirror.Types.{synced, Mirror, FolderState}
use mailbox_cli.Mirror.Tx.{folder_state, sits_in, write_intent, delete_placements, uids}
use mailbox_cli.Mirror.Placements.{flags_at, is_some_flags, placed-delete_placements}
use mailbox_cli.MailSync.Plan
use mailbox_cli.MailSync.Plan.{resync, incremental, Action, FolderStatus, make_plan}
use mailbox_cli.MailSync.Decision.{Continues, plan_none_iff}
use mailbox_cli.MailSync.Types.{Envelope, FlagUpdate, Driver, Outcome, ok}
use mailbox_cli.MailSync.Place.{place, finish}
use mailbox_cli.MailSync.Reconciler.{
  new_uids, write_flags, grown, expunged_uids, cycle_outcome, write_cycle, needs_diff,
  incremental_cycle, settle, perform, apply, action_text,
}
use mailbox_cli.MailSync.Server.{Remote, envelopes, server_uids, updates, Honest, Advanced}
use mailbox_cli.MailSync.Writes.{
  flags_at-place_all_other, placements-fetch_bodies, placements-finish,
}
use mailbox_cli.MailSync.Rebuilt.{
  IsCurrent, succeeded, fetch_bodies-ok, rebuild-IsCurrent, last_flags-absent,
}
use mailbox_cli.MailSync.Cycle.{flags_at-cycle, none_gone}
use mailbox_cli.MailSync.Converges.{
  count-folder_state, asked_changes, fresh_uids, asked_envelopes, asked_uids, expunged-listed,
  needs_diff-false, flags_at-write_flags_other, still,
}

-- A cycle leaves every other folder as it is.
cycle_other :
    (g folder : Text) (u : ℕ) (fresh gone : List ℕ) (changes : List FlagUpdate)
    (envs : List Envelope) (m m' : Mirror)
    → text_eq folder g ≡ false
    → m'.placements ≡ (place folder envs (write_flags folder fresh changes m).0).mirror.placements
    → flags_at g u (delete_placements folder gone m').placements ≡ flags_at g u m.placements
unfolding place
cycle_other g folder u fresh gone changes envs m m' other same =
    rw (placed-delete_placements g u folder gone m', other, same)
      (flags_at-place_all_other g folder u envs _ other
        ∙ flags_at-write_flags_other g folder u fresh changes m other)

module _ (d : Driver) (folder : Text) (s : List Remote) (m : Mirror) (local : FolderState)
    (remote : FolderStatus) (honest : Honest d folder s)
    (adv : Advanced folder m.placements local remote s) (cont : Continues local remote)
    (local_count : local.count ≡ length (select (sits_in folder) m.placements)) where
  abbrev fresh : List ℕ
  fresh = new_uids (make_plan local remote).new_from (updates local.highest_mod_seq s)

  abbrev diff : Bool
  diff = needs_diff local remote (make_plan local remote) fresh

  -- The transaction of an incremental cycle commits the server's flags.
  incremental-IsCurrent :
      (out : Outcome) × (m' : Mirror) × (incremental_cycle d folder local remote
          (make_plan local remote)
          m
        ≡ ok (out, m'))
      × IsCurrent folder s m m'
  unfolding incremental_cycle write_cycle
  incremental-IsCurrent =
      let fl = write_flags folder fresh (updates local.highest_mod_seq s) m in
      let new = select (λ e. mem e.uid fresh) (envelopes s) in
      let pl = place folder new fl.0 in
      let (done, e) = fetch_bodies-ok d folder pl.want_bodies pl.ids pl.mirror honest.texts in
      let p = placements-fetch_bodies d folder pl.want_bodies pl.ids pl.mirror done.0 done.1 e in
      let gone = expunged_uids diff folder fresh (server_uids s) m in
      (
        cycle_outcome fl pl (grown folder (uids folder m) pl.mirror pl.ids) new gone done folder,
        finish folder remote (delete_placements folder gone done.0),
        rw (
          asked_changes d folder s m.placements local remote honest adv cont,
          asked_envelopes d folder s m.placements local remote honest adv cont fresh,
          asked_uids d folder s m.placements local remote honest adv cont diff,
          e,
          expunged-listed diff folder fresh s m,
        ),
        record {
          same = λ u. rw (placements-finish folder remote (delete_placements folder gone done.0)) (
              flags_at-cycle folder s m local remote adv fresh
                (fresh_uids d folder s m.placements local remote honest adv cont) local_count diff
                (needs_diff-false local remote (make_plan local remote) fresh) done.0 p u);
          others = λ g u ne.
              rw (placements-finish folder remote (delete_placements folder gone done.0)) (
                cycle_other g folder u fresh gone (updates local.highest_mod_seq s) new m done.0
                  (text_eq_ne folder g (λ q. ne (sym q))) p);
        },
      )

-- A folder that the plan leaves alone is what the server has.
alone-IsCurrent :
    (d : Driver) (folder : Text) (s : List Remote) (m : Mirror) (remote : FolderStatus)
    → let local = folder_state m folder in
      Honest d folder s
      → Advanced folder m.placements local remote s
      → Continues local remote
      → (make_plan local remote).action ≡ Plan.none
      → IsCurrent folder s m m
alone-IsCurrent d folder s m remote honest adv cont h =
    let local = folder_state m folder in
    let (c, z, mods, count) = (plan_none_iff local remote).0 h in
    let quiet = still d folder s m.placements local remote honest adv cont (sym mods) in
    record {
      same = λ u. elim (Bool-cases (mem u (server_uids s))) [
        | inl there ↦ adv.unchanged u there (quiet u)
        | inr away ↦ elim (Bool-cases (is_some_flags (flags_at folder u m.placements))) [
          | inl held ↦
              let there =
                none_gone folder s m local remote adv []
                  (λ v. ground (arith, adv.arrived v, quiet v)) (count-folder_state m folder cont.0)
                  (omega (arith, count)) u held in
              cc
          | inr gone ↦ ground (arith, last_flags-absent u s none away)
        ]
      ];
      others = λ g u ne. refl;
    }

continues_of_plan :
    (local : FolderState) (remote : FolderStatus)
    → (make_plan local remote).action ≢ resync
    → Continues local remote
unfolding make_plan synced
continues_of_plan local remote h = ground arith

Action-cases : (a : Action) → (a ≡ Plan.none) ⊎ (a ≡ resync) ⊎ (a ≡ incremental)
Action-cases Plan.none = inl refl
Action-cases resync = inr (inl refl)
Action-cases incremental = inr (inr refl)

module _ (d : Driver) (folder : Text) (s : List Remote) (remote : FolderStatus) (m : Mirror) where
  abbrev EndsCurrent : Type 0
  EndsCurrent =
      let (r, m') = apply d folder remote m in (succeeded r ≡ true) × IsCurrent folder s m m'

  incremental-EndsCurrent :
      Honest d folder s
      → Advanced folder m.placements (folder_state m folder) remote s
      → Continues (folder_state m folder) remote
      → (make_plan (folder_state m folder) remote).action ≡ incremental
      → EndsCurrent
  unfolding apply perform settle write_intent
  incremental-EndsCurrent honest adv cont h =
      let m' = write_intent folder (action_text incremental) m in
      let (out, done, e, cur) =
        incremental-IsCurrent d folder s m' (folder_state m folder) remote honest adv cont
          (count-folder_state m folder cont.0) in
      subst
        (λ (a : Action).
          let (r, end) =
            perform d folder (folder_state m folder) remote
              (make_plan (folder_state m folder) remote) a m in
          (succeeded r ≡ true) × IsCurrent folder s m end)
        (sym h) (rw e (refl, record { same = cur.same; others = cur.others }))

  none-EndsCurrent :
      Honest d folder s
      → Advanced folder m.placements (folder_state m folder) remote s
      → Continues (folder_state m folder) remote
      → (make_plan (folder_state m folder) remote).action ≡ Plan.none
      → EndsCurrent
  unfolding apply perform
  none-EndsCurrent honest adv cont h =
      rw h (refl, alone-IsCurrent d folder s m remote honest adv cont h)

-- If the server answers from one state and, where the folder continues what the Mirror holds, has
-- advanced from the state that the Mirror holds, then a cycle succeeds, whatever its plan, and
-- afterwards the folder holds exactly the uids of the server with their flags, and every other
-- folder is as it was.
pub sync_converges :
    (d : Driver) (folder : Text) (s : List Remote) (remote : FolderStatus) (m : Mirror)
    → Honest d folder s
    → (Continues (folder_state m folder) remote
        → Advanced folder m.placements (folder_state m folder) remote s)
    → let (r, m') = apply d folder remote m in (succeeded r ≡ true) × IsCurrent folder s m m'
sync_converges d folder s remote m honest adv =
    by_plan (Action-cases (make_plan (folder_state m folder) remote).action)
  where
    by_plan :
        ((make_plan (folder_state m folder) remote).action ≡ Plan.none)
          ⊎ ((make_plan (folder_state m folder) remote).action ≡ resync)
          ⊎ ((make_plan (folder_state m folder) remote).action ≡ incremental)
        → let (r, m') = apply d folder remote m in (succeeded r ≡ true) × IsCurrent folder s m m'
    by_plan (inl h) =
        let c = continues_of_plan (folder_state m folder) remote (λ e. ground arith) in
        none-EndsCurrent d folder s remote m honest (adv c) c h
    by_plan (inr (inl h)) = rebuild-IsCurrent d folder s remote m honest h
    by_plan (inr (inr h)) =
        let c = continues_of_plan (folder_state m folder) remote (λ e. ground arith) in
        incremental-EndsCurrent d folder s remote m honest (adv c) c h
