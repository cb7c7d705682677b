-- ===== src/Mirror/Types.antt =====
-- internal/mirror/types.go and schema.go: the tables of one account's mail, as lists of records.
-- The columns that hold lists as one text (flags, references) are lists here.
use mailbox_cli.Prelude.{ℕ, Bool, Option, List, Text, ◌==◌, not}

-- What the headers of a mail say about it.
pub record Header : Type 0 where
  pub date : Option ℕ
  pub subject : Text
  pub sender : Text
  pub to : Text
  pub cc : Text
  pub in_reply_to : List Text
  pub references : List Text
  pub list_unsubscribe : Text
  pub list_unsubscribe_post : Text

-- One thing that a mail carries besides its text.
pub record Part : Type 0 where
  pub path : Text
  pub mime_type : Text
  pub filename : Text
  pub disposition : Text
  pub size : ℕ
  pub content_id : Text

-- One mail, with its references (message_refs), its searchable text (messages_fts) and its parts.
pub record Message : Type 0 where
  pub id : ℕ
  pub key : Text
  pub header : Header
  pub refs : List Text
  pub thread_id : ℕ
  pub text_plain : Text
  pub text_html : Text
  pub indexed : Text
  pub mirrored : Bool
  pub parts : List Part

-- Where a mail sits.
pub record Placement : Type 0 where
  pub folder : Text
  pub uid : ℕ
  pub message_id : ℕ
  pub flags : List Text
  pub internal_date : Option ℕ
  pub size : ℕ

-- A row of the table folders.
pub record FolderRow : Type 0 where
  pub name : Text
  pub uid_validity : ℕ
  pub uid_next : ℕ
  pub highest_mod_seq : ℕ

-- What the Mirror knows about the synchronisation of a folder, with the number of its placements.
pub record FolderState : Type 0 where
  pub name : Text
  pub uid_validity : ℕ
  pub uid_next : ℕ
  pub highest_mod_seq : ℕ
  pub count : ℕ

-- A zero UIDVALIDITY is a folder that was never synchronised.
unfoldable pub synced : FolderState → Bool
synced f = not (f.uid_validity == 0)

-- What a sync step wrote down before it touched the network.
pub record Intent : Type 0 where
  pub folder : Text
  pub intent : Text

pub record Mirror : Type 0 where
  pub account : Text
  pub folders : List FolderRow
  pub messages : List Message
  pub placements : List Placement
  pub journal : List Intent
