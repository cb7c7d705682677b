-- ===== src/Bubble/Home.antt =====
-- internal/daemon/bubble.go, bringBack: a thread that is brought back leaves every place it had.
use mailbox_cli.Prelude.{
  ℕ, ◌≡◌, ◌≢◌, refl, sym, ◌∙◌, ap, subst, Bool, true, false, ◌&&◌, Option, none, some, List, [],
  ◌∷◌, Text, text_eq, text_eq_iff, arith, Bool-cases, inl, inr, All, if◌then◌else◌,
}
use mailbox_cli.Mirror.Types.{Message, Placement, Mirror}
use mailbox_cli.Mirror.Tx.{placed}
use mailbox_cli.MailSync.Server.{Distinct}
use mailbox_cli.MailSync.Relocate.{Held}
use mailbox_cli.MailSync.Writer.{
  Ref, Result, Writer, WriteFailure, Written, folders_of, uids_in, move,
}
use mailbox_cli.MailSync.Moved.{text_eq-equal_fold}
use mailbox_cli.MailSync.Folders.{is_in, is_named, mem-uids_in, is_in-folders_of, All-folders_of}
use mailbox_cli.MailSync.Homed.{TakesMoves, CanLeave, IsLeft, move-IsLeft}
use mailbox_cli.Bubble.Return.{
  Brought, row_joined, mirror_row, move_home, moved_in, bring_back, box_named, inbox,
}
use mailbox_cli.Bubble.Away.{has_row, is_row, TakesFlags, IsAway, All-IsAway, bring_each-moves}

known_placed :
    (ms : List Message) (o : Option Placement)
    → is_row (row_joined ms o) ≡ true
    → (p : Placement) × (o ≡ some p)
known_placed ms none h = absurd (ground (arith, h))
known_placed ms (some p) h = (p, refl)

-- The uids of a folder among the refs are held.
Held-uids_in :
    (home : Text) (m : Mirror) (f : Text) (refs : List Ref)
    → All (IsAway home m) refs
    → Held f m (uids_in f refs)
unfolding uids_in mirror_row
Held-uids_in home m f [] a = tt
Held-uids_in home m f (r ∷ refs) (x, a) = elim (Bool-cases (text_eq r.folder f)) [
  | inl e ↦ rw e (
    known_placed m.messages (placed f r.uid m.placements)
        (subst (λ g. has_row g r.uid m ≡ true) ((text_eq_iff r.folder f).0 e) x.known),
    Held-uids_in home m f refs a,
  )
  | inr e ↦ rw e (Held-uids_in home m f refs a)
]

text_eq_sym : (a b : Text) → text_eq a b ≡ false → text_eq b a ≡ false
text_eq_sym a b h = elim (Bool-cases (text_eq b a)) [
  | inl e ↦ let same : text_eq a b ≡ true = (text_eq_iff a b).1 (sym ((text_eq_iff b a).0 e)) in cc
  | inr e ↦ e
]

-- Each place is named once.
abbrev pub AreOnce : List Ref → Type 0
AreOnce refs = (f : Text) → Distinct (uids_in f refs)

can_leave :
    (home : Text) (m : Mirror) (all refs : List Ref)
    → AreOnce all
    → ((f : Text) → Held f m (uids_in f all))
    → All (IsAway home m) refs
    → All (λ (r : Ref). CanLeave home all m r.folder) refs
can_leave home m all [] once held a = tt
can_leave home m all (r ∷ refs) once held (x, a) = (
  record {
    elsewhere = x.outside;
    differs = text_eq_sym r.folder home (text_eq-equal_fold r.folder home x.outside);
    once = once r.folder;
    held = held r.folder;
  },
  can_leave home m all refs once held a,
)

moved_in_sound :
    (out : List Result) (st : Written) (o : Option WriteFailure)
    → o ≡ none
    → ((moved_in out st o).failure ≡ none) × ((moved_in out st o).mirror ≡ st.mirror)
moved_in_sound out st none e = (refl, refl)
moved_in_sound out st (some x) e = absurd (conflict e)
  where
    conflict : some x ≢ none
    conflict q = cc

move_home-IsLeft :
    (w : Writer) (home : Text) (refs : List Ref) (m : Mirror)
    → TakesMoves w
    → All (CanLeave home refs m) (folders_of refs)
    → ((move_home w home [] refs m).failure ≡ none)
      × IsLeft home refs (folders_of refs) m (move_home w home [] refs m).mirror
unfolding move_home
move_home-IsLeft w home [] m takes can = (refl, λ f u n. unfold folders_of in refl)
move_home-IsLeft w home (r ∷ refs) m takes can =
    let st = move w (r ∷ refs) home m in
    let (ok, left) = move-IsLeft w home (r ∷ refs) m takes can in
    let (done, same) = moved_in_sound [] st st.failure ok in
    (done, λ f u n. ap (λ (m' : Mirror). placed f u m'.placements) same ∙ left f u n)

-- The places of the refs are empty, and every other place outside the box that had a mail has one.
pub record IsHome (home : Text) (refs : List Ref) (m : Mirror) (b : Brought) : Type 0 where
  pub succeeds : b.failure ≡ none
  pub leaves : (f : Text) (u : ℕ) → is_named f u refs ≡ true → placed f u b.mirror.placements ≡ none
  pub others :
      (f : Text) (u : ℕ)
      → text_eq home f ≡ false
      → is_named f u refs ≡ false
      → has_row f u m ≡ true
      → (p : Placement) × (placed f u b.mirror.placements ≡ some p)

named_away :
    (home : Text) (m : Mirror) (f : Text) (u : ℕ) (refs : List Ref)
    → All (IsAway home m) refs
    → is_named f u refs ≡ true
    → text_eq home f ≡ false
named_away home m f u [] a h = cc
named_away home m f u (r ∷ refs) (x, a) h = elim (Bool-cases (text_eq r.folder f)) [
  | inl e ↦
      subst (λ g. text_eq home g ≡ false) ((text_eq_iff r.folder f).0 e)
        (text_eq_sym r.folder home (text_eq-equal_fold r.folder home x.outside))
  | inr e ↦ named_away home m f u refs a (ground (arith, h, e))
]

-- If the server takes every STORE and move, and the refs, each named once, are outside the Inbox and of mails that
-- the Mirror has, then bringing them back succeeds, their places are empty, and every other place
-- outside the Inbox that had a mail has one.
pub bring_back-IsHome :
    (w : Writer) (boxes : List Text) (refs : List Ref) (m : Mirror)
    → TakesFlags w
    → TakesMoves w
    → AreOnce refs
    → All (IsAway (box_named boxes inbox).0 m) refs
    → IsHome (box_named boxes inbox).0 refs m (bring_back w boxes refs m)
unfolding bring_back mirror_row
bring_back-IsHome w boxes refs m stores moves once away =
    let home = (box_named boxes inbox).0 in
    let (m', moved, same) = bring_each-moves w home stores refs [] [] m away in
    let away' = All-IsAway home refs m m' same away in
    let can =
      All-folders_of (CanLeave home refs m') refs
        (can_leave home m' refs refs once (λ f. Held-uids_in home m' f refs away') away') in
    let (done, left) = move_home-IsLeft w home refs m' moves can in
    subst (IsHome home refs m) (sym moved) (record {
      succeeds = done;
      leaves = λ f u n.
          left f u (named_away home m f u refs away n)
          ∙ rw (is_in-folders_of f u refs n, mem-uids_in f u refs, n) refl;
      others = λ f u n k h.
          let (p, e) = known_placed m'.messages (placed f u m'.placements) (same f u ∙ h) in
          (p, left f u n ∙ rw (mem-uids_in f u refs, k) (nothing (is_in f (folders_of refs)) e));
    })
  where
    nothing :
        (b : Bool) {o : Option Placement} {q : Option Placement}
        → o ≡ q
        → (if b && false then none else o) ≡ q
    nothing true e = e
    nothing false e = e
