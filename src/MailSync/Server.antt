-- ===== src/MailSync/Server.antt =====
-- What a server answers for one folder: the behaviour of CONDSTORE and of uids (RFC 3501, RFC 7162)
-- that internal/sync/mailsync relies on.
use mailbox_cli.Prelude.{
  ℕ, ◌≡◌, ◌≢◌, ◌≤◌, ◌<◌, Bool, true, false, ◌&&◌, ◌||◌, Option, none, some, List, [], ◌∷◌, map,
  Text, ltb, ◌==◌, if◌then◌else◌, select, length, mem,
}
use mailbox_cli.Mirror.Types.{FolderState, Placement}
use mailbox_cli.Mirror.Placements.{flags_at, is_some_flags}
use mailbox_cli.MailSync.Plan.{FolderStatus}
use mailbox_cli.MailSync.Types.{Envelope, Body, FlagUpdate, Driver}

-- A message in the folder on the server, with the modseq of its last change.
pub record Remote : Type 0 where
  pub envelope : Envelope
  pub mod_seq : ℕ

abbrev pub envelopes : List Remote → List Envelope
envelopes = map (λ r. r.envelope)

abbrev pub server_uids : List Remote → List ℕ
server_uids [] = []
server_uids (r ∷ s) = r.envelope.uid ∷ server_uids s

-- The flags that a list of envelopes leaves at a uid, over what was there.
abbrev pub last_flags : ℕ → List Envelope → Option (List Text) → Option (List Text)
last_flags u [] base = base
last_flags u (e ∷ es) base = last_flags u es (if e.uid == u then some e.flags else base)

-- The flags that the server has at a uid; `none` where it has no message.
abbrev pub remote_flags : ℕ → List Remote → Option (List Text)
remote_flags u s = last_flags u (envelopes s) none

abbrev pub update_of : Remote → FlagUpdate
update_of r = record { uid = r.envelope.uid; flags = r.envelope.flags }

abbrev pub updates : ℕ → List Remote → List FlagUpdate
updates since s = map update_of (select (λ r. ltb since r.mod_seq) s)

-- The message at a uid has changed since a modseq.
abbrev pub changed : ℕ → ℕ → List Remote → Bool
changed since u [] = false
changed since u (r ∷ s) = (r.envelope.uid == u && ltb since r.mod_seq) || changed since u s

abbrev pub Distinct : List ℕ → Type 0
Distinct [] = Unit
Distinct (x ∷ xs) = (mem x xs ≡ false) × Distinct xs

-- The driver answers from one state of the folder.
pub record Honest (d : Driver) (folder : Text) (s : List Remote) : Type 0 where
  pub lists : d.all_uids folder ≡ some (server_uids s)
  pub fetches :
      (us : List ℕ) → d.fetch_envelopes folder us ≡ some (select (λ e. mem e.uid us) (envelopes s))
  pub reports : (since : ℕ) → d.changed_flags folder since ≡ some (updates since s)
  pub texts : (us : List ℕ) → (bodies : List Body) × (d.fetch_bodies folder us ≡ some bodies)

-- The server went on from the state that the Mirror holds: what has a modseq up to the one held is
-- held with its flags, what has a uid below the next one held was held, what has a greater uid has
-- a greater modseq, and the status row describes the folder.
pub record Advanced (folder : Text) (ps : List Placement) (local : FolderState)
    (remote : FolderStatus) (s : List Remote) : Type 0 where
  pub unchanged :
      (u : ℕ)
      → mem u (server_uids s) ≡ true
      → changed local.highest_mod_seq u s ≡ false
      → flags_at folder u ps ≡ remote_flags u s
  pub held_before :
      (u : ℕ)
      → mem u (server_uids s) ≡ true
      → u < local.uid_next
      → is_some_flags (flags_at folder u ps) ≡ true
  pub arrived :
      (u : ℕ)
      → mem u (server_uids s) ≡ true
      → local.uid_next ≤ u
      → changed local.highest_mod_seq u s ≡ true
  pub next : (u : ℕ) → mem u (server_uids s) ≡ true → u < remote.uid_next
  pub counted :
      (u : ℕ)
      → changed local.highest_mod_seq u s ≡ true
      → local.highest_mod_seq < remote.highest_mod_seq
  pub distinct : Distinct (server_uids s)
  pub number : remote.num_messages ≡ length s
  pub some_next : local.uid_next ≢ 0
  pub some_mod_seq : local.highest_mod_seq ≢ 0
