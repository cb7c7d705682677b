-- ===== src/MailSync/Fixtures.antt =====
-- A server and the Mirror before a cycle, at which internal/sync/mailsync is run.
use mailbox_cli.Prelude.{ℕ, ◌≡◌, refl, none, some, List, [], ◌∷◌, Text, codes, arith, mem, select}
use mailbox_cli.Mirror.Types.{FolderState}
use mailbox_cli.Mirror.Tx.{folder_state, find_folder, placed}
use mailbox_cli.Mirror.Tests.{header, inbox, mirror}
use mailbox_cli.MailSync.Plan.{FolderStatus}
use mailbox_cli.MailSync.Types.{Driver}
use mailbox_cli.MailSync.Server.{Remote, envelopes, server_uids, updates, Honest, Advanced}

abbrev pub remote : ℕ → ℕ → List Text → Remote
remote uid mod_seq flags = record {
  envelope = record {
    uid = uid;
    message_id = codes "three@x";
    header = header [];
    flags = flags;
    internal_date = none;
    size = 11;
  };
  mod_seq = mod_seq;
}

-- Since the mirror of modseq 40, the mail at 10 was removed, the one at 11 lost its flag, and one
-- arrived at 12: the number of mails is what it was.
abbrev pub server : List Remote
server = remote 11 41 [] ∷ remote 12 42 (codes "Flagged" ∷ []) ∷ []

abbrev pub status : ℕ → ℕ → FolderStatus
status next mod_seq = record {
  name = inbox;
  uid_validity = 7;
  uid_next = next;
  highest_mod_seq = mod_seq;
  num_messages = 2;
}

-- A driver that answers from one state of the server.
abbrev pub serve : List Remote → Driver
serve s = record {
  status = λ folders. some (status 13 43 ∷ []);
  changed_flags = λ folder since. some (updates since s);
  fetch_envelopes = λ folder us. some (select (λ e. mem e.uid us) (envelopes s));
  fetch_bodies = λ folder us. some [];
  all_uids = λ folder. some (server_uids s);
  strip_forwarder_header = λ t. t;
  html_to_markdown = λ t. t;
}

pub serve-Honest : (s : List Remote) → Honest (serve s) inbox s
serve-Honest s = record {
  lists = refl;
  fetches = λ us. refl;
  reports = λ since. refl;
  texts = λ us. ([], refl);
}

abbrev pub local : FolderState
local = record { name = inbox; uid_validity = 7; uid_next = 12; highest_mod_seq = 40; count = 2 }

pub local-folder_state : folder_state (mirror 40) inbox ≡ local
unfolding folder_state find_folder
local-folder_state = refl

pub server-Advanced : Advanced inbox (mirror 40).placements local (status 13 43) server
unfolding placed
server-Advanced = record {
  unchanged = λ u there quiet. ground arith;
  held_before = λ u there old. ground arith;
  arrived = λ u there new. ground arith;
  next = λ u there. ground arith;
  counted = λ u c. ground arith;
  distinct = (refl, (refl, tt));
  number = refl;
  some_next = λ e. omega (arith, e);
  some_mod_seq = λ e. omega (arith, e);
}
