-- ===== src/MailSync/Types.antt =====
-- internal/sync/mailsync: what the server answers (driver.go), and what a cycle reports
-- (reconciler.go).
use mailbox_cli.Prelude.{none, some, ℕ, Option, List, [], Text}
use mailbox_cli.Mirror.Types.{Header, Part}
use mailbox_cli.MailSync.Plan.{Action, FolderStatus}

-- A message's headers, without its text.
pub record Envelope : Type 0 where
  pub uid : ℕ
  pub message_id : Text
  pub header : Header
  pub flags : List Text
  pub internal_date : Option ℕ
  pub size : ℕ

pub record Body : Type 0 where
  pub uid : ℕ
  pub plain : Text
  pub html : Text
  pub parts : List Part

pub record FlagUpdate : Type 0 where
  pub uid : ℕ
  pub flags : List Text

-- The server, as the reconciler asks it; `none` is an error. The two functions on texts are those
-- of forwarder.go and of the package htmlmd.
pub record Driver : Type 0 where
  pub status : List Text → Option (List FolderStatus)
  pub changed_flags : Text → ℕ → Option (List FlagUpdate)
  pub fetch_envelopes : Text → List ℕ → Option (List Envelope)
  pub fetch_bodies : Text → List ℕ → Option (List Body)
  pub all_uids : Text → Option (List ℕ)
  pub strip_forwarder_header : Text → Text
  pub html_to_markdown : Text → Text

-- One placement that appeared, vanished or changed its flags.
pub record PlacementDelta : Type 0 where
  pub message_id : ℕ
  pub folder : Text

pub record Outcome : Type 0 where
  pub action : Action
  pub new_messages : ℕ
  pub flags_changed : ℕ
  pub expunged : ℕ
  pub bodies_fetched : ℕ
  pub remapped : ℕ
  pub new_threads : List ℕ
  pub added : List PlacementDelta
  pub gone : List PlacementDelta
  pub flagged : List PlacementDelta

abbrev pub no_outcome : Action → Outcome
no_outcome a = record {
  action = a;
  new_messages = 0;
  flags_changed = 0;
  expunged = 0;
  bodies_fetched = 0;
  remapped = 0;
  new_threads = [];
  added = [];
  gone = [];
  flagged = [];
}

-- Which request failed.
pub data Failure : Type 0 where
  status_failed not_on_server all_uids_failed fetch_envelopes_failed fetch_bodies_failed : Failure
  changed_flags_failed : Failure

-- A step that may fail.
pub data Try (A : Type 0) : Type 0 where
  ok : A → Try A
  fail : Failure → Try A

infixl 5 ◌>>=◌
abbrev pub ◌>>=◌ : {A B : Type 0} → Try A → (A → Try B) → Try B
ok a >>= f = f a
fail e >>= f = fail e

-- The answer of a request, or the failure that its error is reported as.
abbrev pub ask : {A : Type 0} → Failure → Option A → Try A
ask e none = fail e
ask e (some a) = ok a
