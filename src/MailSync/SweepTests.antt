-- ===== src/MailSync/SweepTests.antt =====
-- Cycles over many folders and writes of internal/sync/mailsync at concrete inputs, and the theorems
-- about them at such inputs.
use mailbox_cli.Prelude.Cuts.{equal_fold}
use mailbox_cli.Prelude.{
  ◌≡◌, refl, Option, none, some, List, [], ◌∷◌, Text, codes, text_eq, if◌then◌else◌, mem, select,
}
use mailbox_cli.Mirror.Tx.{placed}
use mailbox_cli.Mirror.Messages.{has_text}
use mailbox_cli.Mirror.Tests.{inbox, mirror}
use mailbox_cli.MailSync.Plan.{FolderStatus}
use mailbox_cli.MailSync.Types.{FlagUpdate, Driver, ok}
use mailbox_cli.MailSync.Server.{envelopes, server_uids, updates, Honest}
use mailbox_cli.MailSync.Reconciler.{apply}
use mailbox_cli.MailSync.Fixtures.{server, status, serve, local-folder_state, server-Advanced}
use mailbox_cli.MailSync.Sweep.{find_status, asked, unasked, in_order, Swept, sync_all}
use mailbox_cli.MailSync.Apart.{Untouched, apply-Untouched}
use mailbox_cli.MailSync.Everywhere.{IsSwept, sync_all_converges}
use mailbox_cli.MailSync.Writer.{
  Writer, not_held, mirrors, move_folder, move_acked, committed, move_each,
}
use mailbox_cli.MailSync.Moved.{HasMoved, move_folder-HasMoved}

abbrev archive : Text
archive = codes "Archive"

-- The archive, whose requests fail.
abbrev archived : FolderStatus
archived = record (status 4 50) { name = archive }

abbrev statuses : List FolderStatus
statuses = archived ∷ status 13 43 ∷ []

abbrev only_inbox : {A : Type 0} → Text → Option A → Option A
only_inbox folder answer = if text_eq folder inbox then answer else none

abbrev half : Driver
half = record (serve server) {
  status = λ folders. some statuses;
  changed_flags = λ folder since. only_inbox folder (some (updates since server));
  fetch_envelopes =
      λ folder us. only_inbox folder (some (select (λ e. mem e.uid us) (envelopes server)));
  all_uids = λ folder. only_inbox folder (some (server_uids server));
}

half-Honest : Honest half inbox server
half-Honest = record {
  lists = refl;
  fetches = λ us. refl;
  reports = λ since. refl;
  texts = λ us. ([], refl);
}

-- The inbox was asked for twice and comes first.
inbox_first : in_order (inbox ∷ inbox ∷ []) statuses ≡ status 13 43 ∷ archived ∷ []
unfolding in_order asked unasked find_status has_text
inbox_first = refl

sync_all_converges_example :
    let (r, m') = sync_all half (inbox ∷ []) (mirror 40) in
    (out : Swept) × (r ≡ ok out) × IsSwept half inbox server (status 13 43) out m'
sync_all_converges_example =
    sync_all_converges half (inbox ∷ []) statuses (mirror 40) inbox server (status 13 43) refl refl
      ((λ e. cc), ((λ e. refl), tt)) half-Honest (λ c. rw local-folder_state server-Advanced)

apply-Untouched_example : Untouched inbox (mirror 40) (apply half archive archived (mirror 40)).1
apply-Untouched_example = apply-Untouched inbox archive refl half archived (mirror 40)

-- A server that moves to the uids from 100 on.
abbrev writer : Writer
writer = record {
  mirrored = inbox ∷ archive ∷ [];
  store_flags = λ folder uids add remove. none;
  move = λ folder uids dest. some ((10, 100) ∷ (11, 101) ∷ []);
}

move_folder-HasMoved_example :
    let st = move_folder writer archive inbox (10 ∷ 11 ∷ []) (mirror 40) in
    (st.failure ≡ none)
    × HasMoved
        (mirrors writer archive)
        inbox
        archive
        ((10, 100) ∷ (11, 101) ∷ [])
        (10 ∷ 11 ∷ [])
        (mirror 40)
        st.mirror
move_folder-HasMoved_example =
    move_folder-HasMoved writer inbox archive (10 ∷ 11 ∷ []) ((10, 100) ∷ (11, 101) ∷ [])
      (mirror 40) (unfold equal_fold in refl) refl (refl, (refl, tt))
      (unfold placed in ((_, refl), ((_, refl), tt)))

missing_fails : (move_folder writer archive inbox (9 ∷ []) (mirror 40)).failure ≡ some not_held
unfolding move_folder move_acked move_each committed equal_fold placed
missing_fails = refl

abbrev flagged : List FlagUpdate
flagged = record { uid = 10; flags = codes "Flagged" ∷ [] } ∷ []
