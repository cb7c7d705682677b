-- ===== src/MailSync/Changes.antt =====
-- What a server reports as changed, and what internal/sync/mailsync makes of it.
use mailbox_cli.Prelude.{
  ℕ, ◌≡◌, refl, ◌∙◌, inl, inr, true, false, ◌&&◌, not, Option, none, some, List, [], ◌∷◌, map, Text,
  arith, leb, ◌==◌, select, mem, Bool-cases,
}
use mailbox_cli.Mirror.Placements.{is_some_flags, mem-sort}
use mailbox_cli.MailSync.Types.{FlagUpdate}
use mailbox_cli.MailSync.Reconciler.{new_uids}
use mailbox_cli.MailSync.Server.{
  Remote, envelopes, server_uids, last_flags, updates, changed, Distinct,
}
use mailbox_cli.MailSync.Writes.{changed_flags_of}
use mailbox_cli.MailSync.Rebuilt.{last_flags-absent}

mem_same : (a b : ℕ) (xs : List ℕ) → a ≡ b → mem a xs ≡ mem b xs
mem_same a b xs e = rw e

-- What has changed is on the server.
pub changed-mem :
    (since u : ℕ) (s : List Remote) → changed since u s ≡ true → mem u (server_uids s) ≡ true
changed-mem since u [] h = cc
changed-mem since u (r ∷ s) h = ground (arith, changed-mem since u s)

-- Where nothing has changed, the report leaves the flags.
pub updates-unchanged :
    (since u : ℕ) (s : List Remote) (base : Option (List Text))
    → changed since u s ≡ false
    → changed_flags_of u (updates since s) base ≡ base
updates-unchanged since u [] base h = refl
updates-unchanged since u (r ∷ s) base h = ground (arith, updates-unchanged since u s base)

-- Where a message has changed, the report brings the flags to the server's.
pub updates-changed :
    (since u : ℕ) (s : List Remote) (base : Option (List Text))
    → Distinct (server_uids s)
    → changed since u s ≡ true
    → is_some_flags base ≡ true
    → changed_flags_of u (updates since s) base ≡ last_flags u (envelopes s) base
updates-changed since u [] base d h b = cc
updates-changed since u (r ∷ s) none d h b = cc
updates-changed since u (r ∷ s) (some f) d h b = elim (Bool-cases (r.envelope.uid == u)) [
  | inl e ↦
      let away : mem u (server_uids s) ≡ false =
        ground (arith, d.0, mem_same r.envelope.uid u (server_uids s)) in
      let still : changed since u s ≡ false = ground (arith, changed-mem since u s) in
      ground (
        arith,
        updates-unchanged since u s (some r.envelope.flags) still,
        last_flags-absent u s (some r.envelope.flags) away,
      )
  | inr e ↦ ground (arith, updates-changed since u s (some f) d.1)
]

-- Where the server has a message, what was there before does not matter.
pub last_flags-present :
    (u : ℕ) (s : List Remote) (a b : Option (List Text))
    → mem u (server_uids s) ≡ true
    → last_flags u (envelopes s) a ≡ last_flags u (envelopes s) b
last_flags-present u [] a b h = cc
last_flags-present u (r ∷ s) a b h = ground (arith, last_flags-present u s a b)

mem-select_uids :
    (u from since : ℕ) (s : List Remote)
    → mem u (map (λ (x : FlagUpdate). x.uid) (select (λ x. leb from x.uid) (updates since s)))
      ≡ (leb from u && changed since u s)
mem-select_uids u from since [] = ground arith
mem-select_uids u from since (r ∷ s) = ground (arith, mem-select_uids u from since s)

-- The new uids are those that have changed and are not below the first new one.
pub mem-new_uids :
    (u from since : ℕ) (s : List Remote)
    → mem u (new_uids from (updates since s)) ≡ (not (from == 0) && leb from u && changed since u s)
unfolding new_uids
mem-new_uids u from since s = elim (Bool-cases (from == 0)) [
  | inl e ↦ rw e
  | inr e ↦ rw e (mem-sort u _ ∙ mem-select_uids u from since s)
]
