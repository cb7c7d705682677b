-- ===== src/MailSync/Writes.antt =====
-- internal/sync/mailsync/reconciler.go: what each part of a cycle leaves at every folder and uid.
use mailbox_cli.Prelude.{
  ℕ, ◌≡◌, refl, ap, ◌∙◌, inl, inr, false, ◌&&◌, Option, none, some, List, [], ◌∷◌, Text, text_eq,
  text_eq_refl, arith, ◌==◌, if◌then◌else◌, mem, Bool-cases,
}
use mailbox_cli.Mirror.Types.{Header, Mirror, Message}
use mailbox_cli.Mirror.Tx.{put_placement, set_flags, save_folder, clear_intent}
use mailbox_cli.Mirror.Messages.{upsert_message, upsert_found, set_body, put_parts, find_message}
use mailbox_cli.Mirror.Placements.{flags_at, set_to, flags_at-put, flags_at-flag}
use mailbox_cli.MailSync.Plan.{FolderStatus}
use mailbox_cli.MailSync.Types.{
  Envelope, Body, FlagUpdate, Driver, ok, ask, fetch_bodies_failed, ◌>>=◌,
}
use mailbox_cli.MailSync.Place.{
  Placing, identify, key_of, synthetic_key, placement_of, place_one, place_all, store_body,
  store_found, store_bodies, fetch_bodies, finish, find_id,
}
use mailbox_cli.MailSync.Reconciler.{write_flags}
use mailbox_cli.MailSync.Server.{last_flags}

placements-upsert :
    (key : Text) (h : Header) (m : Mirror)
    → (upsert_message key h m).mirror.placements ≡ m.placements
unfolding upsert_message
placements-upsert key h m = found (find_message key m.messages)
  where
    found : (o : Option Message) → (upsert_found key h m o).mirror.placements ≡ m.placements
    found none = unfold upsert_found in refl
    found (some x) = unfold upsert_found in refl

pub placements-identify :
    (folder : Text) (e : Envelope) (m : Mirror)
    → (identify folder e m).mirror.placements ≡ m.placements
unfolding identify
placements-identify folder e m =
    let first = upsert_message (key_of e folder) e.header m in
    let one = placements-upsert (key_of e folder) e.header m in
    let two = placements-upsert (synthetic_key folder e.uid) e.header first.mirror in
    ground (arith, one, two)

-- An envelope puts its flags at its uid.
flags_at-place_one :
    (g folder : Text) (u : ℕ) (e : Envelope) (st : Placing)
    → flags_at g u (place_one folder e st).mirror.placements
      ≡ (if text_eq folder g && e.uid == u then some e.flags else flags_at g u st.mirror.placements)
unfolding place_one put_placement placement_of
flags_at-place_one g folder u e st =
    let x = identify folder e st.mirror in
    flags_at-put g u (placement_of e folder x.id) x.mirror.placements
    ∙ rw (placements-identify folder e st.mirror)

pub flags_at-place_all :
    (folder : Text) (u : ℕ) (envs : List Envelope) (st : Placing)
    → flags_at folder u (place_all folder envs st).mirror.placements
      ≡ last_flags u envs (flags_at folder u st.mirror.placements)
unfolding place_all
flags_at-place_all folder u [] st = refl
flags_at-place_all folder u (e ∷ envs) st =
    flags_at-place_all folder u envs (place_one folder e st)
    ∙ ap (last_flags u envs) (flags_at-place_one folder folder u e st ∙ rw (text_eq_refl folder))

-- Another folder is left as it is.
pub flags_at-place_all_other :
    (g folder : Text) (u : ℕ) (envs : List Envelope) (st : Placing)
    → text_eq folder g ≡ false
    → flags_at g u (place_all folder envs st).mirror.placements ≡ flags_at g u st.mirror.placements
unfolding place_all
flags_at-place_all_other g folder u [] st other = refl
flags_at-place_all_other g folder u (e ∷ envs) st other =
    flags_at-place_all_other g folder u envs (place_one folder e st) other
    ∙ flags_at-place_one g folder u e st
    ∙ rw other

placements-store_found :
    (d : Driver) (b : Body) (o : Option ℕ) (st : Mirror × ℕ)
    → (store_found d b o st).0.placements ≡ st.0.placements
unfolding store_found store_body put_parts set_body
placements-store_found d b none st = refl
placements-store_found d b (some id) (m, n) = refl

pub placements-store_bodies :
    (d : Driver) (ids : List (ℕ × ℕ)) (bodies : List Body) (st : Mirror × ℕ)
    → (store_bodies d ids bodies st).0.placements ≡ st.0.placements
unfolding store_bodies
placements-store_bodies d ids [] st = refl
placements-store_bodies d ids (b ∷ bodies) st =
    placements-store_bodies d ids bodies (store_found d b (find_id b.uid ids) st)
    ∙ placements-store_found d b (find_id b.uid ids) st

-- Fetching texts fails or leaves every placement as it is.
pub placements-fetch_bodies :
    (d : Driver) (folder : Text) (wanted : List ℕ) (ids : List (ℕ × ℕ)) (m : Mirror) (m' : Mirror)
    (n : ℕ)
    → fetch_bodies d folder wanted ids m ≡ ok (m', n)
    → m'.placements ≡ m.placements
unfolding fetch_bodies
placements-fetch_bodies d folder [] ids m m' n h = ground arith
placements-fetch_bodies d folder (uid ∷ wanted) ids m m' n h =
    answered (d.fetch_bodies folder (uid ∷ wanted)) h
  where
    answered :
        (o : Option (List Body))
        → (ask fetch_bodies_failed o >>= λ bodies. ok (store_bodies d ids bodies (m, 0)))
          ≡ ok (m', n)
        → m'.placements ≡ m.placements
    answered none e = cc
    answered (some bodies) e =
        let p = placements-store_bodies d ids bodies (m, 0) in ground (arith, p, e)

pub placements-finish :
    (folder : Text) (remote : FolderStatus) (m : Mirror)
    → (finish folder remote m).placements ≡ m.placements
unfolding finish save_folder clear_intent
placements-finish folder remote m = refl

-- The flags that a list of changes leaves at a uid, over what was there.
abbrev pub changed_flags_of : ℕ → List FlagUpdate → Option (List Text) → Option (List Text)
changed_flags_of u [] base = base
changed_flags_of u (x ∷ changed) base =
    changed_flags_of u changed (if x.uid == u then set_to x.flags base else base)

mem_same : (a b : ℕ) (xs : List ℕ) → a ≡ b → mem a xs ≡ mem b xs
mem_same a b xs e = rw e

pub flags_at-write_flags :
    (folder : Text) (u : ℕ) (fresh : List ℕ) (changed : List FlagUpdate) (m : Mirror)
    → flags_at folder u (write_flags folder fresh changed m).0.placements ≡ (
        if mem u fresh
        then flags_at folder u m.placements
        else changed_flags_of u changed (flags_at folder u m.placements))
unfolding write_flags set_flags
flags_at-write_flags folder u fresh [] m = ground arith
flags_at-write_flags folder u fresh (x ∷ changed) m = elim (Bool-cases (mem x.uid fresh)) [
  | inl e ↦
      rw e (flags_at-write_flags folder u fresh changed m ∙ ground (arith, mem_same x.uid u fresh))
  | inr e ↦ rw e (
      flags_at-write_flags folder u fresh changed (set_flags folder x.uid x.flags m)
      ∙ ground (
        arith,
        mem_same x.uid u fresh,
        flags_at-flag folder u folder x.uid x.flags m.placements,
        text_eq_refl folder,
      ))
]
