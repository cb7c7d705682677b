-- ===== src/MailSync/Rebuilt.antt =====
-- internal/sync/mailsync/reconciler.go, resync: a folder that is rebuilt is what the server has.
use mailbox_cli.Prelude.{
  ℕ, ◌≡◌, ◌≢◌, text_eq_ne, refl, sym, ◌∙◌, Bool, true, false, Option, none, some, List, [], ◌∷◌,
  Text, text_eq, text_eq_refl, arith, if◌then◌else◌, select, mem,
}
use mailbox_cli.Mirror.Types.{Mirror}
use mailbox_cli.Mirror.Tx.{drop_placements, write_intent, folder_state}
use mailbox_cli.Mirror.Placements.{flags_at, placed-drop_placements}
use mailbox_cli.MailSync.Plan.{resync, FolderStatus, make_plan}
use mailbox_cli.MailSync.Types.{Envelope, Body, Driver, Outcome, Try, ok, fail}
use mailbox_cli.MailSync.Place.{Placing, place, fetch_bodies, store_bodies, finish}
use mailbox_cli.MailSync.Reconciler.{rebuild, rebuild_outcome, settle, perform, apply, action_text}
use mailbox_cli.MailSync.Server.{Remote, envelopes, server_uids, last_flags, remote_flags, Honest}
use mailbox_cli.MailSync.Writes.{
  flags_at-place_all, flags_at-place_all_other, placements-fetch_bodies, placements-finish,
}

-- An envelope that is not asked for leaves nothing.
pub last_flags-select :
    (u : ℕ) (us : List ℕ) (es : List Envelope) (base : Option (List Text))
    → last_flags u (select (λ e. mem e.uid us) es) base
      ≡ (if mem u us then last_flags u es base else base)
last_flags-select u us [] base = ground arith
last_flags-select u us (e ∷ es) base = ground (
  arith,
  last_flags-select u us es base,
  last_flags-select u us es (some e.flags),
  mem_same e.uid u us,
)
  where
    mem_same : (a b : ℕ) (xs : List ℕ) → a ≡ b → mem a xs ≡ mem b xs
    mem_same a b xs h = rw h

-- Where the server has no message, its envelopes leave what was there.
pub last_flags-absent :
    (u : ℕ) (s : List Remote) (base : Option (List Text))
    → mem u (server_uids s) ≡ false
    → last_flags u (envelopes s) base ≡ base
last_flags-absent u [] base h = refl
last_flags-absent u (r ∷ s) base h = ground (arith, last_flags-absent u s base)

pub fetch_bodies-ok :
    (d : Driver) (folder : Text) (wanted : List ℕ) (ids : List (ℕ × ℕ)) (m : Mirror)
    → ((us : List ℕ) → (bodies : List Body) × (d.fetch_bodies folder us ≡ some bodies))
    → (done : Mirror × ℕ) × (fetch_bodies d folder wanted ids m ≡ ok done)
unfolding fetch_bodies
fetch_bodies-ok d folder [] ids m h = ((m, 0), refl)
fetch_bodies-ok d folder (uid ∷ wanted) ids m h =
    let (bodies, e) = h (uid ∷ wanted) in (store_bodies d ids bodies (m, 0), rw e)

module _ (d : Driver) (folder : Text) (s : List Remote) (remote : FolderStatus)
    (honest : Honest d folder s) where
  abbrev fetched : List Envelope
  fetched = select (λ e. mem e.uid (server_uids s)) (envelopes s)

  abbrev placing : Mirror → Placing
  placing m = place folder fetched (drop_placements folder m)

  -- The transaction of a rebuild commits, whatever the Mirror held.
  rebuild-ok :
      (m : Mirror)
      → (done : Mirror × ℕ) × (rebuild d folder remote m
          ≡ ok (rebuild_outcome (placing m) done.1, finish folder remote done.0))
        × (done.0.placements ≡ (placing m).mirror.placements)
  unfolding rebuild
  rebuild-ok m =
      let pl = placing m in
      let (done, e) = fetch_bodies-ok d folder pl.want_bodies pl.ids pl.mirror honest.texts in
      (
        done,
        rw (honest.lists, honest.fetches (server_uids s), e),
        placements-fetch_bodies d folder pl.want_bodies pl.ids pl.mirror done.0 done.1 e,
      )

  flags_at-placing :
      (m : Mirror) (u : ℕ) → flags_at folder u (placing m).mirror.placements ≡ remote_flags u s
  unfolding place drop_placements
  flags_at-placing m u =
      flags_at-place_all folder u fetched _
      ∙ rw (placed-drop_placements folder u folder m.placements, text_eq_refl folder)
          (last_flags-select u (server_uids s) (envelopes s) none
            ∙ ground (arith, last_flags-absent u s none))

  flags_at-placing_other :
      (m : Mirror) (g : Text) (u : ℕ)
      → text_eq folder g ≡ false
      → flags_at g u (placing m).mirror.placements ≡ flags_at g u m.placements
  unfolding place drop_placements
  flags_at-placing_other m g u other =
      flags_at-place_all_other g folder u fetched _ other
      ∙ rw (placed-drop_placements g u folder m.placements, other)

-- What a committed cycle leaves: the flags of the folder are the server's at every uid, and those
-- of every other folder are what they were.
pub record IsCurrent (folder : Text) (s : List Remote) (m m' : Mirror) : Type 0 where
  pub same : (u : ℕ) → flags_at folder u m'.placements ≡ remote_flags u s
  pub others :
      (g : Text) (u : ℕ) → g ≢ folder → flags_at g u m'.placements ≡ flags_at g u m.placements

abbrev pub succeeded : Try Outcome → Bool
succeeded (ok _) = true
succeeded (fail _) = false

-- If the folder does not continue what the Mirror holds and the server answers from one state,
-- then a cycle succeeds, and afterwards the folder holds exactly the uids of the server with their
-- flags, whatever it held before, and every other folder is as it was.
pub rebuild-IsCurrent :
    (d : Driver) (folder : Text) (s : List Remote) (remote : FolderStatus) (m : Mirror)
    → Honest d folder s
    → (make_plan (folder_state m folder) remote).action ≡ resync
    → let (r, m') = apply d folder remote m in (succeeded r ≡ true) × IsCurrent folder s m m'
unfolding apply perform settle write_intent
rebuild-IsCurrent d folder s remote m honest h =
    let m' = write_intent folder (action_text resync) m in
    let (done, e, p) = rebuild-ok d folder s remote honest m' in
    rw (h, e)
      (
        refl,
        record {
          same = λ u.
              rw (placements-finish folder remote done.0, p)
                (flags_at-placing d folder s remote honest m' u);
          others = λ g u ne.
              rw (placements-finish folder remote done.0, p)
                (flags_at-placing_other d folder s remote honest m' g u
                  (text_eq_ne folder g (λ q. ne (sym q))));
        },
      )
