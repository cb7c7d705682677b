-- ===== src/MailSync/Apart.antt =====
-- internal/sync/mailsync/reconciler.go: a cycle of one folder touches no other folder, whether it
-- succeeds or fails.
use mailbox_cli.Prelude.{
  ℕ, ◌≡◌, refl, ◌∙◌, subst, inl, inr, Bool, false, not, Option, none, some, List, [], ◌∷◌, Text,
  text_eq, select, mem, Bool-cases,
}
use mailbox_cli.Mirror.Types.{FolderState, Mirror}
use mailbox_cli.Mirror.Tx.{
  sits_in, sits_at, find_folder, put_placement, set_flags, drop_placements, delete_placements,
  save_folder, clear_intent, write_intent,
}
use mailbox_cli.MailSync.Plan.{Action, none, resync, incremental, FolderStatus, Plan}
use mailbox_cli.MailSync.Types.{
  Envelope, Body, FlagUpdate, Driver, Try, ok, fail, Failure, ask, all_uids_failed,
  fetch_envelopes_failed, fetch_bodies_failed, ◌>>=◌,
}
use mailbox_cli.MailSync.Place.{
  placement_of, Placing, place_one, place_all, place, store_bodies, fetch_bodies, finish,
}
use mailbox_cli.MailSync.Reconciler.{
  Commit, rebuild, rebuild_outcome, write_flags, write_cycle, ask_changed, ask_envelopes, ask_uids,
  new_uids, needs_diff, incremental_cycle, expunged_uids, settle, perform, apply, action_text,
}
use mailbox_cli.MailSync.Writes.{placements-identify, placements-store_bodies}
use mailbox_cli.MailSync.Others.{
  select-put, select-flag, select-drop, select-delete, find_folder-put_folder, folders-identify,
  folders-store_bodies,
}

-- A folder is left as it is: its placements, and its row among the folders.
pub record Untouched (g : Text) (m m' : Mirror) : Type 0 where
  pub rows : select (sits_in g) m'.placements ≡ select (sits_in g) m.placements
  pub row : find_folder g m'.folders ≡ find_folder g m.folders

pub trans-Untouched :
    (g : Text) (a b c : Mirror) → Untouched g a b → Untouched g b c → Untouched g a c
trans-Untouched g a b c h k = record { rows = k.rows ∙ h.rows; row = k.row ∙ h.row }

module _ (g folder : Text) (other : text_eq folder g ≡ false) where
  place_all-Untouched :
      (envs : List Envelope) (st : Placing)
      → Untouched g st.mirror (place_all folder envs st).mirror
  unfolding place_all place_one put_placement placement_of
  place_all-Untouched [] st = record { rows = refl; row = refl }
  place_all-Untouched (e ∷ envs) st =
      trans-Untouched g st.mirror (place_one folder e st).mirror _
        (record {
          rows = select-put g _ _ other ∙ rw (placements-identify folder e st.mirror);
          row = rw (folders-identify folder e st.mirror);
        })
        (place_all-Untouched envs (place_one folder e st))

  delete_placements-Untouched :
      (gone : List ℕ) (m : Mirror) → Untouched g m (delete_placements folder gone m)
  unfolding delete_placements
  delete_placements-Untouched [] m = record { rows = refl; row = refl }
  delete_placements-Untouched (u ∷ gone) m =
      trans-Untouched g m
        (record m { placements = select (λ p. not (sits_at folder u p)) m.placements }) _
        (record { rows = select-delete g folder u m.placements other; row = refl })
        (delete_placements-Untouched gone _)

  write_flags-Untouched :
      (fresh : List ℕ) (changes : List FlagUpdate) (m : Mirror)
      → Untouched g m (write_flags folder fresh changes m).0
  unfolding write_flags set_flags
  write_flags-Untouched fresh [] m = record { rows = refl; row = refl }
  write_flags-Untouched fresh (x ∷ changes) m = elim (Bool-cases (mem x.uid fresh)) [
    | inl e ↦ rw e (write_flags-Untouched fresh changes m)
    | inr e ↦ rw e (
        trans-Untouched g m (set_flags folder x.uid x.flags m) _
          (record { rows = select-flag g folder x.uid x.flags m.placements other; row = refl })
          (write_flags-Untouched fresh changes (set_flags folder x.uid x.flags m)))
  ]

  drop_placements-Untouched : (m : Mirror) → Untouched g m (drop_placements folder m)
  unfolding drop_placements
  drop_placements-Untouched m = record {
    rows = select-drop g folder m.placements other;
    row = refl;
  }

  finish-Untouched : (remote : FolderStatus) (m : Mirror) → Untouched g m (finish folder remote m)
  unfolding finish save_folder clear_intent
  finish-Untouched remote m = record {
    rows = refl;
    row = find_folder-put_folder g _ m.folders other;
  }

  write_intent-Untouched : (text : Text) (m : Mirror) → Untouched g m (write_intent folder text m)
  unfolding write_intent
  write_intent-Untouched text m = record { rows = refl; row = refl }

  -- What a transaction commits leaves the other folder as it is.
  record Commits (m : Mirror) (t : Try Commit) : Type 0 where
    keeps : (c : Commit) → t ≡ ok c → Untouched g m c.1

  ok-Commits : (m : Mirror) (c : Commit) → Untouched g m c.1 → Commits m (ok c)
  ok-Commits m c h = record {
    keeps = λ c' e. subst (λ (x : Commit). Untouched g m x.1) (same c c' e) h;
  }
    where
      same : (c c' : Commit) → Path (Try Commit) (ok c) (ok c') → c ≡ c'
      same c c' e = cc

  fail-Commits : (m : Mirror) (e : Failure) → Commits m (fail e)
  fail-Commits m e = record { keeps = λ c h. cc }

  bind-Commits :
      {A : Type 0} (m : Mirror) (t : Try A) (f : A → Try Commit)
      → ((a : A) → Commits m (f a))
      → Commits m (t >>= f)
  bind-Commits m (ok a) f h = h a
  bind-Commits m (fail e) f h = fail-Commits m e

  -- The texts are the last that a transaction asks for.
  finished :
      (d : Driver) (wanted : List ℕ) (ids : List (ℕ × ℕ)) (m start : Mirror)
      (k : Mirror × ℕ → Commit)
      → ((done : Mirror × ℕ) → Untouched g m done.0 → Untouched g start (k done).1)
      → Commits start (fetch_bodies d folder wanted ids m >>= λ done. ok (k done))
  unfolding fetch_bodies
  finished d [] ids m start k h =
      ok-Commits start (k (m, 0)) (h (m, 0) (record { rows = refl; row = refl }))
  finished d (u ∷ wanted) ids m start k h = answered (d.fetch_bodies folder (u ∷ wanted))
    where
      answered :
          (o : Option (List Body))
          → Commits start (
              (ask fetch_bodies_failed o >>= λ bodies. ok (store_bodies d ids bodies (m, 0)))
              >>= λ done. ok (k done))
      answered none = fail-Commits start fetch_bodies_failed
      answered (some bodies) =
          let done = store_bodies d ids bodies (m, 0) in
          ok-Commits start (k done) (
            h done (record {
              rows = rw (placements-store_bodies d ids bodies (m, 0));
              row = rw (folders-store_bodies d ids bodies (m, 0));
            }))

  place-Untouched : (envs : List Envelope) (m : Mirror) → Untouched g m (place folder envs m).mirror
  unfolding place
  place-Untouched envs m =
      place_all-Untouched envs (record { mirror = m; want_bodies = []; ids = []; remapped = 0 })

  module _ (d : Driver) (remote : FolderStatus) where
    rebuild-Commits : (m : Mirror) → Commits m (rebuild d folder remote m)
    unfolding rebuild
    rebuild-Commits m = bind-Commits m (ask all_uids_failed (d.all_uids folder)) _ (λ found.
        bind-Commits m (ask fetch_envelopes_failed (d.fetch_envelopes folder found)) _ (λ envs.
          let start = drop_placements folder m in
          let pl = place folder envs start in
          finished d pl.want_bodies pl.ids pl.mirror m
            (λ done. (rebuild_outcome pl done.1, finish folder remote done.0))
            (λ done h. trans-Untouched g m start _ (drop_placements-Untouched m) (
              trans-Untouched g start pl.mirror _ (place-Untouched envs start)
                (trans-Untouched g pl.mirror done.0 _ h (finish-Untouched remote done.0))))))

    write_cycle-Commits :
        (diff : Bool) (changes : List FlagUpdate) (fresh : List ℕ) (envs : List Envelope)
        (listed : List ℕ) (m : Mirror)
        → Commits m (write_cycle d folder remote diff changes fresh envs listed m)
    unfolding write_cycle
    write_cycle-Commits diff changes fresh envs listed m =
        let flagged = (write_flags folder fresh changes m).0 in
        let pl = place folder envs flagged in
        let gone = expunged_uids diff folder fresh listed m in
        finished d pl.want_bodies pl.ids pl.mirror m _ (λ done h.
          trans-Untouched g m flagged _ (write_flags-Untouched fresh changes m) (
            trans-Untouched g flagged pl.mirror _ (place-Untouched envs flagged) (
              trans-Untouched g pl.mirror done.0 _ h (
                trans-Untouched g done.0 (delete_placements folder gone done.0) _
                  (delete_placements-Untouched gone done.0)
                  (finish-Untouched remote (delete_placements folder gone done.0))))))

    incremental_cycle-Commits :
        (local : FolderState) (plan : Plan) (m : Mirror)
        → Commits m (incremental_cycle d folder local remote plan m)
    unfolding incremental_cycle
    incremental_cycle-Commits local plan m =
        bind-Commits m (ask_changed d folder plan.flags_since) _ (λ changes.
          let fresh = new_uids plan.new_from changes in
          let diff = needs_diff local remote plan fresh in
          bind-Commits m (ask_envelopes d folder fresh) _ (λ envs.
            bind-Commits m (ask_uids d folder diff) _
              (λ listed. write_cycle-Commits diff changes fresh envs listed m)))

    settle-Untouched : (t : Try Commit) (m : Mirror) → Commits m t → Untouched g m (settle t m).1
    unfolding settle
    settle-Untouched (ok (out, m')) m h = h.keeps (out, m') refl
    settle-Untouched (fail e) m h = record { rows = refl; row = refl }

    perform-Untouched :
        (local : FolderState) (plan : Plan) (a : Action) (m : Mirror)
        → Untouched g m (perform d folder local remote plan a m).1
    unfolding perform
    perform-Untouched local plan Action.none m = record { rows = refl; row = refl }
    perform-Untouched local plan resync m =
        let m' = write_intent folder (action_text resync) m in
        trans-Untouched g m m' _ (write_intent-Untouched _ m)
          (settle-Untouched (rebuild d folder remote m') m' (rebuild-Commits m'))
    perform-Untouched local plan incremental m =
        let m' = write_intent folder (action_text incremental) m in
        trans-Untouched g m m' _ (write_intent-Untouched _ m) (
          settle-Untouched (incremental_cycle d folder local remote plan m') m'
            (incremental_cycle-Commits local plan m'))

    -- A cycle of a folder leaves every other folder as it is, whether it succeeds or fails.
    pub apply-Untouched : (m : Mirror) → Untouched g m (apply d folder remote m).1
    unfolding apply
    apply-Untouched m = perform-Untouched _ _ _ m
