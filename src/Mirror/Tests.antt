-- ===== src/Mirror/Tests.antt =====
-- Runs of internal/mirror at concrete inputs, and the theorems about it at such inputs.
use mailbox_cli.Prelude.{
  ℕ, ◌≡◌, refl, true, none, List, [], ◌∷◌, Text, codes, text_eq, if◌then◌else◌,
}
use mailbox_cli.Mirror.Types.{Header, Message, Placement, Mirror}
use mailbox_cli.Mirror.Tx.{find_folder, placed}
use mailbox_cli.Mirror.Messages.{
  Upserted, upsert_message, upsert_found, new_message, refs_of, max_message_id, find_message,
  thread, linked_threads, oldest, merge_threads, thread_of, has_text,
}
use mailbox_cli.Mirror.Forget.{forget_folder, folder_names, forget_folder_keeps_state}

abbrev pub header : List Text → Header
header refs = record {
  date = none;
  subject = codes "Hello";
  sender = codes "a@example.org";
  to = [];
  cc = [];
  in_reply_to = [];
  references = refs;
  list_unsubscribe = [];
  list_unsubscribe_post = [];
}

abbrev pub message : ℕ → Text → Message
message id key = record {
  id = id;
  key = key;
  header = header [];
  refs = [];
  thread_id = id;
  text_plain = codes "Hello there";
  text_html = [];
  indexed = codes "Hello there";
  mirrored = true;
  parts = [];
}

abbrev pub at : Text → ℕ → ℕ → List Text → Placement
at folder uid id flags = record {
  folder = folder;
  uid = uid;
  message_id = id;
  flags = flags;
  internal_date = none;
  size = 11;
}

abbrev pub inbox : Text
inbox = codes "INBOX"

abbrev archive : Text
archive = codes "Archive"

-- Two mails in the inbox, the first of them in the archive too.
abbrev pub mirror : ℕ → Mirror
mirror mod_seq = record {
  account = codes "work";
  folders =
      record { name = inbox; uid_validity = 7; uid_next = 12; highest_mod_seq = mod_seq } ∷ [];
  messages = message 1 (codes "one@x") ∷ message 2 (codes "two@x") ∷ [];
  placements = at inbox 10 1 [] ∷ at inbox 11 2 (codes "Seen" ∷ []) ∷ at archive 3 1 [] ∷ [];
  journal = [];
}

forget_folder_keeps_state_example :
    let m' = forget_folder inbox (mirror 40) in
    ((g : Text) (u : ℕ)
      → placed g u m'.placements
        ≡ (if text_eq inbox g then none else placed g u (mirror 40).placements))
    × (find_folder inbox m'.folders ≡ find_folder inbox (mirror 40).folders)
    × (has_text inbox (folder_names m') ≡ has_text inbox (folder_names (mirror 40)))
forget_folder_keeps_state_example = forget_folder_keeps_state inbox (mirror 40) (λ e. cc)

-- An answer joins the thread of the mail that it names.
answered : Upserted
answered = upsert_message (codes "three@x") (header (codes "two@x" ∷ [])) (mirror 40)

answer_joins : thread_of answered.id answered.mirror.messages ≡ 2
unfolding answered upsert_message upsert_found new_message refs_of max_message_id find_message
    thread linked_threads oldest merge_threads thread_of has_text
answer_joins = refl
