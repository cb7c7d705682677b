-- ===== src/MailSync/Converges.antt =====
-- internal/sync/mailsync/reconciler.go, apply: after a cycle the folder is what the server has.
use mailbox_cli.Prelude.{
  ℕ, ◌+◌, ◌<◌, ◌≡◌, ◌≢◌, refl, ◌∙◌, inl, inr, ◌⊎◌, Bool, true, false, ◌&&◌, Option, none, some,
  List, [], ◌∷◌, Text, arith, ltb, leb, if◌then◌else◌, select, mem, length, Bool-cases, text_eq,
}
use mailbox_cli.Mirror.Types.{Mirror, FolderState, FolderRow, Placement}
use mailbox_cli.Mirror.Tx.{folder_state, state_of, find_folder, sits_in, set_flags}
use mailbox_cli.Mirror.Placements.{flags_at, flags_at-flag}
use mailbox_cli.MailSync.Plan.{FolderStatus, Plan, make_plan}
use mailbox_cli.Mirror.Types.{synced}
use mailbox_cli.MailSync.Decision.{Continues}
use mailbox_cli.MailSync.Types.{Envelope, FlagUpdate, Driver, ok}
use mailbox_cli.MailSync.Reconciler.{
  ask_changed, new_uids, ask_envelopes, ask_uids, write_flags, expunged_uids, needs_diff,
}
use mailbox_cli.MailSync.Server.{Remote, envelopes, server_uids, updates, changed, Honest, Advanced}
use mailbox_cli.MailSync.Changes.{changed-mem, mem-new_uids}

no_updates :
    (since : ℕ) (s : List Remote) → ((u : ℕ) → changed since u s ≡ false) → updates since s ≡ []
no_updates since [] h = refl
no_updates since (r ∷ s) h =
    ground (arith, h r.envelope.uid, no_updates since s (λ u. ground (arith, h u)))

select_no_uids : (es : List Envelope) → select (λ e. mem e.uid []) es ≡ []
select_no_uids [] = refl
select_no_uids (e ∷ es) = select_no_uids es

pub flags_at-write_flags_other :
    (g folder : Text) (u : ℕ) (fresh : List ℕ) (changes : List FlagUpdate) (m : Mirror)
    → text_eq folder g ≡ false
    → flags_at g u (write_flags folder fresh changes m).0.placements ≡ flags_at g u m.placements
unfolding write_flags set_flags
flags_at-write_flags_other g folder u fresh [] m other = refl
flags_at-write_flags_other g folder u fresh (x ∷ changes) m other =
    elim (Bool-cases (mem x.uid fresh)) [
      | inl e ↦ rw e (flags_at-write_flags_other g folder u fresh changes m other)
      | inr e ↦ rw e (
          flags_at-write_flags_other g folder u fresh changes (set_flags folder x.uid x.flags m)
            other
          ∙ flags_at-flag g u folder x.uid x.flags m.placements
          ∙ rw other)
    ]

-- The number of placements that a folder that was synchronised has.
pub count-folder_state :
    (m : Mirror) (folder : Text)
    → (folder_state m folder).uid_validity ≢ 0
    → (folder_state m folder).count ≡ length (select (sits_in folder) m.placements)
unfolding folder_state
count-folder_state m folder h = found (find_folder folder m.folders) h
  where
    found :
        (o : Option FolderRow)
        → (state_of folder (length (select (sits_in folder) m.placements)) o).uid_validity ≢ 0
        → (state_of folder (length (select (sits_in folder) m.placements)) o).count
          ≡ length (select (sits_in folder) m.placements)
    found none k = absurd (k refl)
    found (some f) k = refl

module _ (d : Driver) (folder : Text) (s : List Remote) (ps : List Placement) (local : FolderState)
    (remote : FolderStatus) (honest : Honest d folder s) (adv : Advanced folder ps local remote s)
    (cont : Continues local remote) where
  -- Nothing has changed while the modseq stands still.
  pub still :
      local.highest_mod_seq ≡ remote.highest_mod_seq
      → (u : ℕ) → changed local.highest_mod_seq u s ≡ false
  still e u = elim (Bool-cases (changed local.highest_mod_seq u s)) [
    | inl c ↦ absurd (omega (arith, adv.counted u c, e))
    | inr c ↦ c
  ]

  mods :
      (local.highest_mod_seq < remote.highest_mod_seq)
      ⊎ (local.highest_mod_seq ≡ remote.highest_mod_seq)
  mods = elim (Bool-cases (ltb local.highest_mod_seq remote.highest_mod_seq)) [
    | inl e ↦ inl (ground arith)
    | inr e ↦ inr (ground arith)
  ]

  asks_since :
      (make_plan local remote).flags_since
      ≡ (if ltb local.highest_mod_seq remote.highest_mod_seq then local.highest_mod_seq else 0)
  unfolding make_plan synced
  asks_since = ground (arith, adv.some_mod_seq)

  asks_from : (make_plan local remote).new_from ≡ (
      if ltb local.highest_mod_seq remote.highest_mod_seq
      then (if ltb local.uid_next remote.uid_next then local.uid_next else 0)
      else 0)
  unfolding make_plan synced
  asks_from = ground (arith, adv.some_mod_seq)

  pub asked_changes :
      ask_changed d folder (make_plan local remote).flags_since
      ≡ ok (updates local.highest_mod_seq s)
  unfolding ask_changed
  asked_changes = elim mods [
    | inl l ↦ ground (arith, asks_since, adv.some_mod_seq, honest.reports local.highest_mod_seq)
    | inr e ↦ rw (no_updates local.highest_mod_seq s (still e)) (ground (arith, asks_since))
  ]

  pub fresh_uids :
      (u : ℕ)
      → mem u (new_uids (make_plan local remote).new_from (updates local.highest_mod_seq s))
        ≡ (leb local.uid_next u && mem u (server_uids s))
  fresh_uids u =
      mem-new_uids u (make_plan local remote).new_from local.highest_mod_seq s ∙ elim mods [
        | inl l ↦ ground (
          arith,
          asks_from,
          adv.some_next,
          adv.arrived u,
          adv.next u,
          changed-mem local.highest_mod_seq u s,
        )
        | inr e ↦ ground (arith, asks_from, adv.arrived u, still e u)
      ]

  pub asked_envelopes :
      (fresh : List ℕ)
      → ask_envelopes d folder fresh ≡ ok (select (λ e. mem e.uid fresh) (envelopes s))
  unfolding ask_envelopes
  asked_envelopes [] = rw (select_no_uids (envelopes s))
  asked_envelopes (u ∷ fresh) = rw (honest.fetches (u ∷ fresh))

  pub asked_uids : (diff : Bool) → ask_uids d folder diff ≡ ok (if diff then server_uids s else [])
  unfolding ask_uids
  asked_uids true = rw honest.lists
  asked_uids false = refl

pub expunged-listed :
    (diff : Bool) (folder : Text) (fresh : List ℕ) (s : List Remote) (m : Mirror)
    → expunged_uids diff folder fresh (if diff then server_uids s else []) m
      ≡ expunged_uids diff folder fresh (server_uids s) m
unfolding expunged_uids
expunged-listed true folder fresh s m = refl
expunged-listed false folder fresh s m = refl

pub needs_diff-false :
    (local : FolderState) (remote : FolderStatus) (plan : Plan) (fresh : List ℕ)
    → needs_diff local remote plan fresh ≡ false
    → local.count + length fresh ≡ remote.num_messages
unfolding needs_diff
needs_diff-false local remote plan fresh h = ground arith
