-- ===== src/MailSync/Decision.antt =====
-- internal/sync/mailsync/plan.go: when MakePlan does what.
use mailbox_cli.Prelude.{
  ℕ, ◌≡◌, ◌≢◌, ◌↔◌, ◌<◌, ◌≤◌, ◌⊎◌, refl, true, ◌&&◌, not, List, [], ◌∷◌, arith, mem,
}
use mailbox_cli.Mirror.Types.{FolderState, synced}
use mailbox_cli.MailSync.Plan.{none, resync, FolderStatus, make_plan, diff_uids}

module _ (local : FolderState) (remote : FolderStatus) where
  -- The folder has the incarnation that was synchronised, and its modseq did not go backwards.
  abbrev pub Continues : Type 0
  Continues =
      (local.uid_validity ≢ 0)
      × (local.uid_validity ≡ remote.uid_validity)
      × (local.highest_mod_seq ≤ remote.highest_mod_seq)

-- A folder is left alone exactly when it continues, the server counts modseqs, and neither the
-- modseq nor the number of messages has moved.
pub plan_none_iff :
    (local : FolderState) (remote : FolderStatus)
    → ((make_plan local remote).action ≡ none) ↔ (
        Continues local remote
        × (remote.highest_mod_seq ≢ 0)
        × (remote.highest_mod_seq ≡ local.highest_mod_seq)
        × (remote.num_messages ≡ local.count))
unfolding make_plan synced
plan_none_iff local remote = (λ h. ground arith, λ h. ground arith)

-- A folder is rebuilt exactly when it does not continue.
pub plan_resync_iff :
    (local : FolderState) (remote : FolderStatus)
    → ((make_plan local remote).action ≡ resync) ↔ (¬ Continues local remote)
unfolding make_plan synced
plan_resync_iff local remote = (λ h c. ground arith, λ h. ground arith)

-- A plan that is not a rebuild asks for flag changes only after the modseq held here, and only if
-- the server's is greater; asks for new uids only from the first one not seen here, and only if
-- the server has assigned one; and asks for the expunge diff exactly when the counts differ.
pub plan_asks :
    (local : FolderState) (remote : FolderStatus)
    → Continues local remote
    → let p = make_plan local remote in
      ((p.flags_since ≡ 0)
        ⊎ ((p.flags_since ≡ local.highest_mod_seq)
            × (local.highest_mod_seq < remote.highest_mod_seq)))
      × ((p.new_from ≡ 0) ⊎ ((p.new_from ≡ local.uid_next) × (local.uid_next < remote.uid_next)))
      × ((p.expunge_diff ≡ true) ↔ (remote.num_messages ≢ local.count))
unfolding make_plan synced
plan_asks local remote (v, e, s) =
    (ground arith, ground arith, (λ h. ground arith, λ h. ground arith))

-- The expunged uids are those held here that the server does not have.
pub mem-diff_uids :
    (u : ℕ) (local remote : List ℕ)
    → mem u (diff_uids local remote) ≡ (mem u local && not (mem u remote))
unfolding diff_uids
mem-diff_uids u [] remote = refl
mem-diff_uids u (x ∷ local) remote = ground (arith, mem-diff_uids u local remote, ap_mem x u remote)
  where
    ap_mem : (x u : ℕ) (remote : List ℕ) → x ≡ u → mem x remote ≡ mem u remote
    ap_mem x u remote e = rw e
