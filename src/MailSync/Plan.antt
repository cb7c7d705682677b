-- ===== src/MailSync/Plan.antt =====
-- internal/sync/mailsync/plan.go: what to do with one folder, decided from two cheap numbers.
use mailbox_cli.Prelude.{
  ℕ, Bool, true, false, ◌||◌, not, List, Text, ltb, ◌==◌, if◌then◌else◌, select, mem,
}
use mailbox_cli.Mirror.Types.{FolderState, synced}

pub data Action : Type 0 where
  none resync incremental : Action

-- What one row of LIST-STATUS says about a folder.
pub record FolderStatus : Type 0 where
  pub name : Text
  pub uid_validity : ℕ
  pub uid_next : ℕ
  pub highest_mod_seq : ℕ
  pub num_messages : ℕ

-- A zero in `flags_since` or `new_from` asks for nothing.
pub record Plan : Type 0 where
  pub action : Action
  pub flags_since : ℕ
  pub new_from : ℕ
  pub expunge_diff : Bool

abbrev pub plan_of : Action → Plan
plan_of a = record { action = a; flags_since = 0; new_from = 0; expunge_diff = false }

abbrev pub first_new : FolderState → FolderStatus → ℕ
first_new local remote = if ltb local.uid_next remote.uid_next then local.uid_next else 0

abbrev pub check_count : FolderState → FolderStatus → Plan → Plan
check_count local remote p =
    if not (remote.num_messages == local.count)
    then record p { action = incremental; expunge_diff = true }
    else p

unfoldable pub make_plan : FolderState → FolderStatus → Plan
make_plan local remote =
    if not (synced local) || not (local.uid_validity == remote.uid_validity)
    then plan_of resync
    else if ltb remote.highest_mod_seq local.highest_mod_seq
    then plan_of resync
    else if remote.highest_mod_seq == 0
    then record {
      action = incremental;
      flags_since = 0;
      new_from = first_new local remote;
      expunge_diff = not (remote.num_messages == local.count);
    }
    else check_count local remote (
        if ltb local.highest_mod_seq remote.highest_mod_seq
        then record {
          action = incremental;
          flags_since = local.highest_mod_seq;
          new_from = first_new local remote;
          expunge_diff = false;
        }
        else plan_of none)

-- The uids that are held here and not there.
unfoldable pub diff_uids : List ℕ → List ℕ → List ℕ
diff_uids local remote = select (λ u. not (mem u remote)) local
