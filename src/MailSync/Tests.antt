-- ===== src/MailSync/Tests.antt =====
-- Cycles of internal/sync/mailsync at concrete inputs, and the theorems about it at such inputs.
use mailbox_cli.Prelude.{[], ◌≡◌, refl, true, none, arith}
use mailbox_cli.Mirror.Types.{synced}
use mailbox_cli.Mirror.Tx.{folder_state, find_folder, placed}
use mailbox_cli.Mirror.Tests.{inbox, mirror}
use mailbox_cli.MailSync.Plan.{resync, FolderStatus, make_plan}
use mailbox_cli.MailSync.Types.{Driver, fail, changed_flags_failed}
use mailbox_cli.MailSync.Reconciler.{apply, perform, settle, incremental_cycle, ask_changed}
use mailbox_cli.MailSync.Rebuilt.{IsCurrent, succeeded}
use mailbox_cli.MailSync.Current.{sync_converges}
use mailbox_cli.MailSync.Committed.{IsCommitted, apply-IsCommitted}
use mailbox_cli.MailSync.Types.{no_outcome, ok}
use mailbox_cli.MailSync.Place.{place, place_all, fetch_bodies}
use mailbox_cli.MailSync.Reconciler.{rebuild}
use mailbox_cli.MailSync.Failures.{OnlyJournaled, failed_cycle_keeps, no_mod_seq_no_mail}
use mailbox_cli.MailSync.Fixtures.{
  server, status, serve, serve-Honest, local-folder_state, server-Advanced,
}

sync_converges_example :
    let (r, m') = apply (serve server) inbox (status 13 43) (mirror 40) in
    (succeeded r ≡ true) × IsCurrent inbox server (mirror 40) m'
sync_converges_example =
    sync_converges (serve server) inbox server (status 13 43) (mirror 40) (serve-Honest server)
      (λ c. rw local-folder_state server-Advanced)

-- The answers of a server whose request for changed flags fails.
abbrev mute : Driver
mute = record (serve server) { changed_flags = λ folder since. none }

mute_fails : (apply mute inbox (status 13 43) (mirror 40)).0 ≡ fail changed_flags_failed
unfolding apply folder_state find_folder make_plan synced perform incremental_cycle ask_changed
    settle
mute_fails = refl

failed_cycle_keeps_example :
    OnlyJournaled inbox (mirror 40) (apply mute inbox (status 13 43) (mirror 40)).1
failed_cycle_keeps_example =
    failed_cycle_keeps mute inbox (status 13 43) (mirror 40) changed_flags_failed mute_fails

-- A server without modseqs announces a mail at 12.
no_mod_seq_no_mail_example :
    placed inbox 12 (apply (serve server) inbox (status 13 0) (mirror 0)).1.placements ≡ none
no_mod_seq_no_mail_example =
    no_mod_seq_no_mail (serve server) inbox (status 13 0) (mirror 0) 12
      (unfold folder_state find_folder in (λ e. omega (arith, e), refl, omega arith))
      (unfold folder_state find_folder in refl) (unfold placed in refl)

-- The folder has another incarnation, in which it is empty.
abbrev renewed : FolderStatus
renewed = record (status 1 1) { uid_validity = 8 }

renewed_commits : (apply (serve []) inbox renewed (mirror 40)).0 ≡ ok (no_outcome resync)
unfolding apply folder_state find_folder make_plan synced perform rebuild place place_all
    fetch_bodies settle
renewed_commits = refl

apply-IsCommitted_example : IsCommitted inbox renewed (apply (serve []) inbox renewed (mirror 40)).1
apply-IsCommitted_example =
    apply-IsCommitted (serve []) inbox renewed (mirror 40) (no_outcome resync)
      (unfold folder_state find_folder make_plan synced in (λ e. cc)) renewed_commits
