-- ===== src/Bubble/Away.antt =====
-- internal/daemon/bubble.go, bringBack: what the loop over the refs does before the move.
use mailbox_cli.Prelude.{
  ℕ, ◌≡◌, refl, sym, ◌∙◌, ap, Bool, true, false, Option, none, some, List, [], ◌∷◌, ◌++◌, Text,
  arith, Bool-cases, inl, inr, All, if◌then◌else◌,
}
use mathlib.Core.List.{append_assoc, append-nil}
use mailbox_cli.Prelude.Cuts.{equal_fold}
use mailbox_cli.Mirror.Types.{Message, Placement, Mirror}
use mailbox_cli.Mirror.Tx.{sits_at, flag, set_flags, placed}
use mailbox_cli.MailSync.Types.{FlagUpdate}
use mailbox_cli.MailSync.Writer.{
  Ref, Result, Writer, folders_of, insert_folder, uids_in, after_folder, each_folder, per_folder,
  stored, change_flags,
}
use mailbox_cli.Bubble.Due.{joined}
use mailbox_cli.Bubble.Return.{
  and_message, row_joined, mirror_row, move_home, reflag, bring_each, taken_off,
}
use mailbox_cli.Bubble.Keyword.{keyword_of, returned}
use mailbox_cli.Bubble.Views.{view-change_flags}

abbrev pub is_row : Option (Placement × Message) → Bool
is_row none = false
is_row (some x) = true

-- The Mirror has the mail at a place.
abbrev pub has_row : Text → ℕ → Mirror → Bool
has_row f u m = is_row (mirror_row f u m)

row-flag :
    (ms : List Message) (f : Text) (u : ℕ) (g : Text) (v : ℕ) (flags : List Text)
    (ps : List Placement)
    → is_row (row_joined ms (placed f u (flag g v flags ps)))
      ≡ is_row (row_joined ms (placed f u ps))
unfolding flag placed
row-flag ms f u g v flags [] = refl
row-flag ms f u g v flags (p ∷ ps) = elim (Bool-cases (sits_at g v p)) [
  | inl e ↦ rw e (
      by_place (sits_at f u p) (record p { flags = flags }) p _ _
        (same_message (joined p.message_id ms)) (row-flag ms f u g v flags ps))
  | inr e ↦ rw e (by_place (sits_at f u p) p p _ _ refl (row-flag ms f u g v flags ps))
]
  where
    same_message :
        (o : Option Message)
        → is_row (and_message (some (record p { flags = flags })) o)
          ≡ is_row (and_message (some p) o)
    same_message none = refl
    same_message (some x) = refl

    by_place :
        (b : Bool) (q r : Placement) (x y : Option Placement)
        → is_row (row_joined ms (some q)) ≡ is_row (row_joined ms (some r))
        → is_row (row_joined ms x) ≡ is_row (row_joined ms y)
        → is_row (row_joined ms (if b then some q else x))
          ≡ is_row (row_joined ms (if b then some r else y))
    by_place true q r x y h k = h
    by_place false q r x y h k = k

has_row-set_flags :
    (f : Text) (u : ℕ) (g : Text) (v : ℕ) (flags : List Text) (m : Mirror)
    → has_row f u (set_flags g v flags m) ≡ has_row f u m
unfolding set_flags mirror_row
has_row-set_flags f u g v flags m = row-flag m.messages f u g v flags m.placements

pub has_row-reflag :
    (w : Writer) (r : Ref) (flags : List Text) (m : Mirror) (f : Text) (u : ℕ)
    → has_row f u (reflag w r flags m).mirror ≡ has_row f u m
unfolding reflag
has_row-reflag w r flags m f u =
    view-change_flags (has_row f u) (has_row-set_flags f u) w (r ∷ []) (returned ∷ [])
      (taken_off (keyword_of flags)) m

-- The server takes every STORE.
abbrev pub TakesFlags : Writer → Type 0
TakesFlags w =
    (folder : Text) (uids : List ℕ) (add remove : List Text)
    → (us : List FlagUpdate) × (w.store_flags folder uids add remove ≡ some us)

reflag_sound :
    (w : Writer) (r : Ref) (flags : List Text) (m : Mirror)
    → TakesFlags w
    → (reflag w r flags m).failure ≡ none
unfolding reflag change_flags per_folder folders_of insert_folder each_folder stored after_folder
reflag_sound w r flags m takes =
    let (us, e) =
      takes r.folder (uids_in r.folder (r ∷ [])) (returned ∷ []) (taken_off (keyword_of flags)) in
    rw e refl

-- A ref outside a box, of a mail that the Mirror has.
pub record IsAway (home : Text) (m : Mirror) (r : Ref) : Type 0 where
  pub outside : equal_fold r.folder home ≡ false
  pub known : has_row r.folder r.uid m ≡ true

pub All-IsAway :
    (home : Text) (refs : List Ref) (m m' : Mirror)
    → ((f : Text) (u : ℕ) → has_row f u m' ≡ has_row f u m)
    → All (IsAway home m) refs
    → All (IsAway home m') refs
All-IsAway home [] m m' same a = tt
All-IsAway home (r ∷ refs) m m' same (x, a) = (
  record { outside = x.outside; known = same r.folder r.uid ∙ x.known },
  All-IsAway home refs m m' same a,
)

pub row_of_known :
    (o : Option (Placement × Message)) → is_row o ≡ true → (x : Placement × Message) × (o ≡ some x)
row_of_known none h = absurd (ground (arith, h))
row_of_known (some x) h = (x, refl)

-- The loop of bringBack moves what is outside, in a Mirror that has the same mails.
module _ (w : Writer) (home : Text) (takes : TakesFlags w) where
  bring_step :
      (r : Ref) (refs : List Ref) (out : List Result) (moves : List Ref) (m : Mirror)
      (row : Placement × Message)
      → mirror_row r.folder r.uid m ≡ some row
      → equal_fold r.folder home ≡ false
      → bring_each w home (r ∷ refs) out moves m
        ≡ bring_each w home refs out (moves ++ r ∷ []) (reflag w r row.0.flags m).mirror
  unfolding bring_each
  bring_step r refs out moves m row e outside =
      rw (e, reflag_sound w r row.0.flags m takes, outside, bring_each) refl

  pub bring_each-moves :
      (refs : List Ref) (out : List Result) (moves : List Ref) (m : Mirror)
      → All (IsAway home m) refs
      → (m' : Mirror) × (bring_each w home refs out moves m
          ≡ move_home w home out (moves ++ refs) m')
        × ((f : Text) (u : ℕ) → has_row f u m' ≡ has_row f u m)
  unfolding bring_each
  bring_each-moves [] out moves m a =
      (m, ap (λ l. move_home w home out l m) (sym (append-nil moves)), λ f u. refl)
  bring_each-moves (r ∷ refs) out moves m (x, a) =
      let (row, e) = row_of_known (mirror_row r.folder r.uid m) x.known in
      let st = reflag w r row.0.flags m in
      let same = has_row-reflag w r row.0.flags m in
      let (m', moved, same') =
        bring_each-moves refs out (moves ++ r ∷ []) st.mirror
          (All-IsAway home refs m st.mirror same a) in
      (
        m',
        bring_step r refs out moves m row e x.outside
            ∙ moved
            ∙ ap (λ l. move_home w home out l m') (append_assoc moves (r ∷ []) refs),
        λ f u. same' f u ∙ same f u,
      )
