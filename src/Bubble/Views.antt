-- ===== src/Bubble/Views.antt =====
-- internal/sync/mailsync/write.go: what a change of flags leaves as it was.
use mailbox_cli.Prelude.{
  ℕ, ◌≡◌, refl, ◌∙◌, Bool, true, false, Option, none, some, List, [], ◌∷◌, map, Text, Bool-cases,
  inl, inr, if◌then◌else◌,
}
use mailbox_cli.Mirror.Types.{Placement, Mirror}
use mailbox_cli.Mirror.Tx.{sits_at, flag, set_flags, placed}
use mailbox_cli.MailSync.Types.{FlagUpdate}
use mailbox_cli.MailSync.Writer.{
  Ref, Writer, WriteFailure, Written, folders_of, uids_in, after_folder, each_folder, per_folder,
  write_updates, stored, change_flags,
}

mirror-after_folder :
    (st : Written) (o : Option WriteFailure) (rest : Written) {A : Type 0} (view : Mirror → A)
    → view rest.mirror ≡ view st.mirror
    → view (after_folder st o rest).mirror ≡ view st.mirror
unfolding after_folder
mirror-after_folder st none rest view h = h
mirror-after_folder st (some e) rest view h = refl

-- What every step of a loop over folders keeps, the loop keeps.
pub view-each_folder :
    {A : Type 0} (view : Mirror → A) (f : Text → List ℕ → Mirror → Written)
    → ((folder : Text) (uids : List ℕ) (m : Mirror) → view (f folder uids m).mirror ≡ view m)
    → (refs : List Ref) (fs : List Text) (m : Mirror)
    → view (each_folder f refs fs m).mirror ≡ view m
unfolding each_folder
view-each_folder view f keep refs [] m = refl
view-each_folder view f keep refs (g ∷ fs) m =
    let st = f g (uids_in g refs) m in
    mirror-after_folder st st.failure (each_folder f refs fs st.mirror) view
      (view-each_folder view f keep refs fs st.mirror)
    ∙ keep g (uids_in g refs) m

view-write_updates :
    {A : Type 0} (view : Mirror → A)
    → ((f : Text) (u : ℕ) (flags : List Text) (m : Mirror) → view (set_flags f u flags m) ≡ view m)
    → (f : Text) (us : List FlagUpdate) (m : Mirror) → view (write_updates f us m) ≡ view m
unfolding write_updates
view-write_updates view keep f [] m = refl
view-write_updates view keep f (u ∷ us) m =
    view-write_updates view keep f us (set_flags f u.uid u.flags m) ∙ keep f u.uid u.flags m

view-stored :
    {A : Type 0} (view : Mirror → A)
    → ((f : Text) (u : ℕ) (flags : List Text) (m : Mirror) → view (set_flags f u flags m) ≡ view m)
    → (f : Text) (m : Mirror) (o : Option (List FlagUpdate)) → view (stored f m o).mirror ≡ view m
unfolding stored
view-stored view keep f m none = refl
view-stored view keep f m (some us) = view-write_updates view keep f us m

-- What no write of flags changes, a change of flags does not.
pub view-change_flags :
    {A : Type 0} (view : Mirror → A)
    → ((f : Text) (u : ℕ) (flags : List Text) (m : Mirror) → view (set_flags f u flags m) ≡ view m)
    → (w : Writer) (refs : List Ref) (add remove : List Text) (m : Mirror)
    → view (change_flags w refs add remove m).mirror ≡ view m
unfolding change_flags per_folder
view-change_flags view keep w refs add remove m =
    view-each_folder view (λ folder uids m. stored folder m (w.store_flags folder uids add remove))
      (λ folder uids m. view-stored view keep folder m (w.store_flags folder uids add remove)) refs
      (folders_of refs) m

-- Where a mail is.
abbrev pub spot : Placement → Text × ℕ
spot p = (p.folder, p.uid)

abbrev pub places : Mirror → List (Text × ℕ)
places m = map spot m.placements

places-flag :
    (f : Text) (u : ℕ) (flags : List Text) (ps : List Placement)
    → map spot (flag f u flags ps) ≡ map spot ps
unfolding flag
places-flag f u flags [] = refl
places-flag f u flags (p ∷ ps) = elim (Bool-cases (sits_at f u p)) [
  | inl e ↦ rw (e, places-flag f u flags ps) refl
  | inr e ↦ rw (e, places-flag f u flags ps) refl
]

pub places-set_flags :
    (f : Text) (u : ℕ) (flags : List Text) (m : Mirror) → places (set_flags f u flags m) ≡ places m
unfolding set_flags
places-set_flags f u flags m = places-flag f u flags m.placements

abbrev pub is_there : Option Placement → Bool
is_there none = false
is_there (some p) = true

abbrev pub holds : Text → ℕ → Mirror → Bool
holds f u m = is_there (placed f u m.placements)

holds-flag :
    (f : Text) (u : ℕ) (g : Text) (v : ℕ) (flags : List Text) (ps : List Placement)
    → is_there (placed f u (flag g v flags ps)) ≡ is_there (placed f u ps)
unfolding flag placed
holds-flag f u g v flags [] = refl
holds-flag f u g v flags (p ∷ ps) = elim (Bool-cases (sits_at g v p)) [
  | inl e ↦
      rw e
        (by_place (sits_at f u p) (record p { flags = flags }) p _ _ (holds-flag f u g v flags ps))
  | inr e ↦ rw e (by_place (sits_at f u p) p p _ _ (holds-flag f u g v flags ps))
]
  where
    by_place :
        (b : Bool) (q r : Placement) (x y : Option Placement)
        → is_there x ≡ is_there y
        → is_there (if b then some q else x) ≡ is_there (if b then some r else y)
    by_place true q r x y h = refl
    by_place false q r x y h = h

pub holds-set_flags :
    (g : Text) (v : ℕ) (f : Text) (u : ℕ) (flags : List Text) (m : Mirror)
    → holds g v (set_flags f u flags m) ≡ holds g v m
unfolding set_flags
holds-set_flags g v f u flags m = holds-flag g v f u flags m.placements
