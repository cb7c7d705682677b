-- ===== src/MailSync/Cycle.antt =====
-- internal/sync/mailsync/reconciler.go, incremental: a cycle that applies what changed leaves what
-- the server has.
use mailbox_cli.Prelude.{
  ℕ, suc, ◌+◌, ◌≡◌, refl, sym, ap, ◌∙◌, inl, inr, Bool, true, false, ◌&&◌, ◌||◌, not, none, List,
  [], ◌∷◌, ◌++◌, map, Text, arith, leb, if◌then◌else◌, select, mem, mem-append, length,
  length-append, Bool-cases, text_eq_refl,
}
use mailbox_cli.Mirror.Types.{Mirror, FolderState}
use mailbox_cli.Mirror.Tx.{sort, uids, delete_placements, sits_in}
use mailbox_cli.Mirror.Placements.{
  flags_at, is_some_flags, placed-delete_placements, mem-uids, mem-sort,
}
use mailbox_cli.MailSync.Plan.{FolderStatus}
use mailbox_cli.MailSync.Decision.{mem-diff_uids}
use mailbox_cli.MailSync.Types.{Envelope}
use mailbox_cli.MailSync.Place.{place}
use mailbox_cli.MailSync.Reconciler.{write_flags, expunged_uids}
use mailbox_cli.MailSync.Server.{
  Remote, envelopes, server_uids, last_flags, remote_flags, updates, changed, Advanced,
}
use mailbox_cli.MailSync.Writes.{flags_at-place_all, flags_at-write_flags, changed_flags_of}
use mailbox_cli.MailSync.Rebuilt.{last_flags-select, last_flags-absent}
use mailbox_cli.MailSync.Counting.{none_left_over, length-sort, length-map}
use mailbox_cli.MailSync.Changes.{
  changed-mem, updates-unchanged, updates-changed, last_flags-present,
}

module _ (folder : Text) (s : List Remote) (m : Mirror) (since : ℕ) (fresh : List ℕ) where
  abbrev envs : List Envelope
  envs = select (λ e. mem e.uid fresh) (envelopes s)

  abbrev flagged_mirror : Mirror
  flagged_mirror = (write_flags folder fresh (updates since s) m).0

  -- Before the expunged uids go, each uid has the server's flags where the message is new, and
  -- else what the report makes of the flags held.
  flags_at-written :
      (u : ℕ)
      → flags_at folder u (place folder envs flagged_mirror).mirror.placements ≡ (
          if mem u fresh
          then last_flags u (envelopes s) (flags_at folder u m.placements)
          else changed_flags_of u (updates since s) (flags_at folder u m.placements))
  unfolding place
  flags_at-written u =
      flags_at-place_all folder u envs _
      ∙ last_flags-select u fresh (envelopes s) (flags_at folder u flagged_mirror.placements)
      ∙ ground (arith, flags_at-write_flags folder u fresh (updates since s) m)

length-server_uids : (s : List Remote) → length (server_uids s) ≡ length s
length-server_uids [] = refl
length-server_uids (r ∷ s) = ap suc (length-server_uids s)

module _ (folder : Text) (s : List Remote) (m : Mirror) (local : FolderState)
    (remote : FolderStatus) (adv : Advanced folder m.placements local remote s) (fresh : List ℕ)
    (fresh_iff : (u : ℕ) → mem u fresh ≡ (leb local.uid_next u && mem u (server_uids s)))
    (local_count : local.count ≡ length (select (sits_in folder) m.placements)) where
  length-held_uids : length (uids folder m) ≡ local.count
  unfolding uids
  length-held_uids =
      length-sort (map (λ p. p.uid) (select (sits_in folder) m.placements))
      ∙ length-map (λ p. p.uid) (select (sits_in folder) m.placements)
      ∙ sym local_count

  -- Every message on the server is held or new.
  server-covered : (u : ℕ) → mem u (server_uids s) ≡ true → mem u (uids folder m ++ fresh) ≡ true
  server-covered u h = ground (
    arith,
    mem-append u (uids folder m) fresh,
    fresh_iff u,
    mem-uids folder u m,
    adv.held_before u h,
  )

  -- If the counts agree, the server still has what is held.
  pub none_gone :
      local.count + length fresh ≡ remote.num_messages
      → (u : ℕ) → is_some_flags (flags_at folder u m.placements) ≡ true
      → mem u (server_uids s) ≡ true
  none_gone e u h =
      none_left_over (server_uids s) (uids folder m ++ fresh) adv.distinct server-covered
        (omega (
          arith,
          e,
          length-append (uids folder m) fresh,
          length-held_uids,
          length-server_uids s,
          adv.number,
        ))
        u (ground (arith, mem-append u (uids folder m) fresh, mem-uids folder u m))

  -- Where nothing is new, what the report makes of the flags held is what the server has.
  reported :
      (u : ℕ)
      → mem u (server_uids s) ≡ true
      → mem u fresh ≡ false
      → changed_flags_of u (updates local.highest_mod_seq s) (flags_at folder u m.placements)
        ≡ remote_flags u s
  reported u h new =
      let base = flags_at folder u m.placements in
      let there : is_some_flags base ≡ true = adv.held_before u h (ground (arith, fresh_iff u)) in
      elim (Bool-cases (changed local.highest_mod_seq u s)) [
        | inl e ↦
            updates-changed local.highest_mod_seq u s base adv.distinct e there
            ∙ last_flags-present u s base none h
        | inr e ↦ updates-unchanged local.highest_mod_seq u s base e ∙ adv.unchanged u h e
      ]

  module _ (diff : Bool)
      (exact : diff ≡ false → local.count + length fresh ≡ remote.num_messages) where
    mem-gone :
        (u : ℕ)
        → mem u (expunged_uids diff folder fresh (server_uids s) m) ≡ (
            diff
            && (is_some_flags (flags_at folder u m.placements) || mem u fresh)
            && not (mem u (server_uids s)))
    unfolding expunged_uids
    mem-gone u = elim (Bool-cases diff) [
      | inl e ↦ rw e (
          mem-diff_uids u (sort (uids folder m ++ fresh)) (server_uids s)
          ∙ ground (
            arith,
            mem-sort u (uids folder m ++ fresh),
            mem-append u (uids folder m) fresh,
            mem-uids folder u m,
          ))
      | inr e ↦ rw e
    ]

    -- A message that is held and not on the server makes the cycle look for expunges.
    diff_needed :
        (u : ℕ)
        → mem u (server_uids s) ≡ false
        → is_some_flags (flags_at folder u m.placements) ≡ true
        → diff ≡ true
    diff_needed u away h = elim (Bool-cases diff) [
      | inl e ↦ e
      | inr e ↦ let there = none_gone (exact e) u h in cc
    ]

    abbrev gone : List ℕ
    gone = expunged_uids diff folder fresh (server_uids s) m

    module _ (m' : Mirror)
        (same : m'.placements
          ≡ (place folder
              (envs folder s m local.highest_mod_seq fresh)
              (flagged_mirror folder s m local.highest_mod_seq fresh)).mirror.placements) where
      -- Where the server has a message, it is not deleted and has the server's flags.
      flags_at-here :
          (u : ℕ)
          → mem u (server_uids s) ≡ true
          → flags_at folder u m'.placements ≡ remote_flags u s
      flags_at-here u h =
          rw (same, flags_at-written folder s m local.highest_mod_seq fresh u)
            (ground
              (arith, reported u h, last_flags-present u s (flags_at folder u m.placements) none h))

      -- Where the server has none, nothing is written.
      flags_at-away :
          (u : ℕ)
          → mem u (server_uids s) ≡ false
          → flags_at folder u m'.placements ≡ flags_at folder u m.placements
      flags_at-away u h =
          let still : changed local.highest_mod_seq u s ≡ false =
            ground (arith, changed-mem local.highest_mod_seq u s) in
          rw (same, flags_at-written folder s m local.highest_mod_seq fresh u)
            (ground (
              arith,
              fresh_iff u,
              updates-unchanged local.highest_mod_seq u s (flags_at folder u m.placements) still,
            ))

      -- What the server has no message for is gone, and all else has the server's flags.
      pub flags_at-cycle :
          (u : ℕ)
          → flags_at folder u (delete_placements folder gone m').placements ≡ remote_flags u s
      flags_at-cycle u = elim (Bool-cases (mem u (server_uids s))) [
        | inl h ↦
            rw (placed-delete_placements folder u folder gone m', mem-gone u, h)
              (ground (arith, flags_at-here u h))
        | inr h ↦
            let none_there = last_flags-absent u s none h in
            rw
              (placed-delete_placements folder u folder gone m', mem-gone u, h, text_eq_refl folder)
              (ground (arith, fresh_iff u, flags_at-away u h, none_there, diff_needed u h))
      ]
