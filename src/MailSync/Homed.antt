-- ===== src/MailSync/Homed.antt =====
-- internal/sync/mailsync/write.go, Move: a move that the server takes empties every place it names.
use mailbox_cli.Prelude.{
  ℕ, ◌≡◌, ◌≢◌, refl, ◌∙◌, ap, Bool, true, false, ◌&&◌, ◌||◌, Option, none, some, List, [], ◌∷◌,
  Text, text_eq, text_eq_iff, All, mem, if◌then◌else◌,
}
use mailbox_cli.Prelude.Cuts.{equal_fold}
use mailbox_cli.Mirror.Types.{Placement, Mirror}
use mailbox_cli.Mirror.Tx.{placed}
use mailbox_cli.MailSync.Server.{Distinct}
use mailbox_cli.MailSync.Relocate.{Held}
use mailbox_cli.MailSync.Moved.{move_folder-HasMoved}
use mailbox_cli.MailSync.Writer.{
  Ref, Writer, WriteFailure, Written, folders_of, uids_in, after_folder, each_folder, per_folder,
  move_folder, move,
}
use mailbox_cli.MailSync.Folders.{ComeOnce, folders_of-ComeOnce, is_in}

-- The server acknowledges every move.
abbrev pub TakesMoves : Writer → Type 0
TakesMoves w =
    (folder : Text) (uids : List ℕ) (dest : Text)
    → (moved : List (ℕ × ℕ)) × (w.move folder uids dest ≡ some moved)

-- What a move asks of one folder: it is not the destination, and its uids are held, each once.
pub record CanLeave (dest : Text) (refs : List Ref) (m : Mirror) (f : Text) : Type 0 where
  pub elsewhere : equal_fold f dest ≡ false
  pub differs : text_eq dest f ≡ false
  pub once : Distinct (uids_in f refs)
  pub held : Held f m (uids_in f refs)

-- The places that a sweep of the folders leaves, outside the destination.
abbrev pub IsLeft : Text → List Ref → List Text → Mirror → Mirror → Type 0
IsLeft dest refs fs m m' =
    (f : Text) (u : ℕ)
    → text_eq dest f ≡ false
    → placed f u m'.placements
      ≡ (if is_in f fs && mem u (uids_in f refs) then none else placed f u m.placements)

Held-same :
    (f : Text) (m m' : Mirror) (us : List ℕ)
    → ((u : ℕ) → placed f u m'.placements ≡ placed f u m.placements)
    → Held f m us
    → Held f m' us
Held-same f m m' [] same h = tt
Held-same f m m' (u ∷ us) same ((p, e), h) = ((p, same u ∙ e), Held-same f m m' us same h)

All-CanLeave :
    (dest : Text) (refs : List Ref) (g : Text) (fs : List Text) (m m' : Mirror)
    → ((f : Text) (u : ℕ)
        → text_eq dest f ≡ false
        → text_eq g f ≡ false
        → placed f u m'.placements ≡ placed f u m.placements)
    → All (λ f. text_eq g f ≡ false) fs
    → All (CanLeave dest refs m) fs
    → All (CanLeave dest refs m') fs
All-CanLeave dest refs g [] m m' same a c = tt
All-CanLeave dest refs g (f ∷ fs) m m' same (n, a) (c, cs) = (
  record {
    elsewhere = c.elsewhere;
    differs = c.differs;
    once = c.once;
    held = Held-same f m m' (uids_in f refs) (λ u. same f u c.differs n) c.held;
  },
  All-CanLeave dest refs g fs m m' same a cs,
)

after_sound :
    (st rest : Written) (o : Option WriteFailure)
    → o ≡ none
    → ((after_folder st o rest).failure ≡ rest.failure)
      × ((after_folder st o rest).mirror ≡ rest.mirror)
unfolding after_folder
after_sound st rest none e = (refl, refl)
after_sound st rest (some x) e = absurd (conflict e)
  where
    conflict : some x ≢ none
    conflict q = cc

-- Two sweeps, one after the other, empty what either empties.
either :
    (a b p q : Bool) (x : Option Placement)
    → (a ≡ true → p ≡ q)
    → (if b && q then none else (if a && p then none else x)) ≡ (if (a || b) && q then none else x)
either true true p true x h = refl
either true true p false x h = rw (h refl) refl
either true false p q x h = rw (h refl) refl
either false b p q x h = refl

module _ (w : Writer) (dest : Text) (refs : List Ref) (takes : TakesMoves w) where
  each_folder-IsLeft :
      (fs : List Text) (m : Mirror)
      → ComeOnce fs
      → All (CanLeave dest refs m) fs
      → let st = each_folder (move_folder w dest) refs fs m in
        (st.failure ≡ none) × IsLeft dest refs fs m st.mirror
  unfolding each_folder
  each_folder-IsLeft [] m once can = (refl, λ f u n. refl)
  each_folder-IsLeft (g ∷ fs) m (apart, once) (c, can) =
      let us = uids_in g refs in
      let (moved, acked) = takes g us dest in
      let (sound, has) = move_folder-HasMoved w g dest us moved m c.elsewhere acked c.once c.held in
      let st = move_folder w dest g us m in
      let rest = each_folder (move_folder w dest) refs fs st.mirror in
      let (ok, left) = each_folder-IsLeft fs st.mirror once (
        All-CanLeave dest refs g fs m st.mirror (λ f u n a. has.left f u n ∙ rw a refl) apart
          can) in
      let (failure, mirror) = after_sound st rest st.failure sound in
      (
        failure ∙ ok,
        λ f u n.
            ap (λ (m' : Mirror). placed f u m'.placements) mirror
            ∙ left f u n
            ∙ ap (λ o. if is_in f fs && mem u (uids_in f refs) then none else o) (has.left f u n)
            ∙ either (text_eq g f) (is_in f fs) (mem u us) (mem u (uids_in f refs))
                (placed f u m.placements)
                (λ e. ap (λ h. mem u (uids_in h refs)) ((text_eq_iff g f).0 e)),
      )

-- If the server takes every move, and each folder of the refs can be left, then a move succeeds, and
-- every place that it names is empty, and every other place outside the destination is as it was.
pub move-IsLeft :
    (w : Writer) (dest : Text) (refs : List Ref) (m : Mirror)
    → TakesMoves w
    → All (CanLeave dest refs m) (folders_of refs)
    → ((move w refs dest m).failure ≡ none)
      × IsLeft dest refs (folders_of refs) m (move w refs dest m).mirror
unfolding move per_folder
move-IsLeft w dest refs m takes can =
    each_folder-IsLeft w dest refs takes (folders_of refs) m (folders_of-ComeOnce refs) can
