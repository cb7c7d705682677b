-- ===== src/Bubble/Kept.antt =====
-- internal/daemon/bubble.go: a bubble whose keyword the server does not keep sets nothing aside.
use mailbox_cli.Prelude.{
  ℕ, ◌≡◌, ◌≢◌, refl, ap, ◌∙◌, sym, true, false, ◌&&◌, ◌||◌, not, Option, none, some, List, [], ◌∷◌,
  ◌++◌, map, Text, Bool-cases, Option-cases, inl, inr, any_of, select, text_eq, text_ltb,
}
use mailbox_cli.Prelude.Cuts.{equal_fold}
use mailbox_cli.Mirror.Types.{Mirror}
use mailbox_cli.MailSync.Types.{FlagUpdate}
use mailbox_cli.MailSync.Writer.{
  Ref, Result, Writer, WriteFailure, Written, folders_of, insert_folder, uids_in, after_folder,
  each_folder, per_folder, flag_result, stored, change_flags,
}
use mailbox_cli.Clock.Calendar.{Time}
use mailbox_cli.Bubble.Keyword.{keyword}
use mailbox_cli.Bubble.Return.{
  BubbleFailure, SetAside, OldKeyword, has_flag, all_keep, store_new, strip_old, stripped,
  old_keywords, retime, set_bubble, box_named, box_aside, inbox, is_empty_list,
}
use mailbox_cli.Bubble.Views.{places, places-set_flags, view-change_flags}

-- A STORE of the keyword that the server takes is answered, in each folder, by some mail without it.
abbrev pub Loses : Writer → Text → Type 0
Loses w k =
    (folder : Text) (uids : List ℕ) (us : List FlagUpdate)
    → w.store_flags folder uids (k ∷ []) [] ≡ some us
    → any_of (λ (u : FlagUpdate). not (has_flag k u.flags)) us ≡ true

all_keep-append :
    (k : Text) (xs ys : List Result) → all_keep k xs ≡ false → all_keep k (xs ++ ys) ≡ false
unfolding all_keep
all_keep-append k [] ys h = cc
all_keep-append k (x ∷ xs) ys h = elim (Bool-cases (has_flag k x.flags)) [
  | inl e ↦ rw e (all_keep-append k xs ys (sym (ap (λ b. b && all_keep k xs) e) ∙ h))
  | inr e ↦ rw e refl
]

all_keep-flag_result :
    (k folder : Text) (us : List FlagUpdate)
    → any_of (λ (u : FlagUpdate). not (has_flag k u.flags)) us ≡ true
    → all_keep k (map (flag_result folder) us) ≡ false
unfolding all_keep flag_result
all_keep-flag_result k folder [] h = cc
all_keep-flag_result k folder (u ∷ us) h = elim (Bool-cases (has_flag k u.flags)) [
  | inl e ↦ rw e (
      all_keep-flag_result k folder us
        (sym (ap (λ b. not b || any_of (λ (u : FlagUpdate). not (has_flag k u.flags)) us) e) ∙ h))
  | inr e ↦ rw e refl
]

-- The first folder of a STORE fails, or shows that the keyword is not kept.
first_folder :
    (k : Text) (st rest : Written) (o : Option WriteFailure)
    → st.failure ≡ o
    → (o ≡ none → all_keep k st.results ≡ false)
    → ((after_folder st o rest).failure ≡ none)
    → all_keep k (after_folder st o rest).results ≡ false
unfolding after_folder
first_folder k st rest none e h n = all_keep-append k st.results rest.results (h refl)
first_folder k st rest (some x) e h n = absurd (conflict (sym e ∙ n))
  where
    conflict : some x ≢ none
    conflict q = cc

stored-Loses :
    (w : Writer) (k folder : Text) (uids : List ℕ) (m : Mirror) (o : Option (List FlagUpdate))
    → Loses w k
    → w.store_flags folder uids (k ∷ []) [] ≡ o
    → (stored folder m o).failure ≡ none
    → all_keep k (stored folder m o).results ≡ false
unfolding stored
stored-Loses w k folder uids m none l e n = cc
stored-Loses w k folder uids m (some us) l e n =
    all_keep-flag_result k folder us (l folder uids us e)

folders_some :
    (r : Ref) (refs : List Ref) → (f : Text) × (fs : List Text) × (folders_of (r ∷ refs) ≡ f ∷ fs)
unfolding folders_of insert_folder
folders_some r refs = inserted r.folder (folders_of refs)
  where
    inserted :
        (f : Text) (gs : List Text) → (g : Text) × (fs : List Text) × (insert_folder f gs ≡ g ∷ fs)
    inserted f [] = (f, [], refl)
    inserted f (g ∷ gs) = elim (Bool-cases (text_eq f g)) [
      | inl e ↦ rw e (g, gs, refl)
      | inr e ↦ rw e (elim (Bool-cases (text_ltb f g)) [
        | inl l ↦ rw l (f, g ∷ gs, refl)
        | inr l ↦ rw l (g, insert_folder f gs, refl)
      ])
    ]

-- A STORE of the keyword on some mail fails, or its answer shows that the keyword is not kept.
each_folder-Loses :
    (w : Writer) (k : Text) (refs : List Ref) (f : Text) (fs : List Text) (m : Mirror)
    → Loses w k
    → let st =
        each_folder (λ g us m. stored g m (w.store_flags g us (k ∷ []) [])) refs (f ∷ fs) m in
      st.failure ≡ none → all_keep k st.results ≡ false
unfolding each_folder
each_folder-Loses w k refs f fs m l n =
    let o = w.store_flags f (uids_in f refs) (k ∷ []) [] in
    let st = stored f m o in
    first_folder k st
      (each_folder (λ g us m. stored g m (w.store_flags g us (k ∷ []) [])) refs fs st.mirror)
      st.failure refl (λ e. stored-Loses w k f (uids_in f refs) m o l refl e) n

change-Loses :
    (w : Writer) (k : Text) (r : Ref) (refs : List Ref) (m : Mirror)
    → Loses w k
    → (change_flags w (r ∷ refs) (k ∷ []) [] m).failure ≡ none
    → all_keep k (change_flags w (r ∷ refs) (k ∷ []) [] m).results ≡ false
unfolding change_flags per_folder
change-Loses w k r refs m l =
    let (f, fs, e) = folders_some r refs in rw e (each_folder-Loses w k (r ∷ refs) f fs m l)

-- The bubble failed, and every mail is where it was.
pub record IsRefused (m : Mirror) (s : SetAside) : Type 0 where
  pub fails : s.failure ≢ none
  pub stays : places s.mirror ≡ places m

some_none : (e : BubbleFailure) → some e ≢ none
some_none e q = cc

places-change_flags :
    (w : Writer) (refs : List Ref) (add remove : List Text) (m : Mirror)
    → places (change_flags w refs add remove m).mirror ≡ places m
places-change_flags = view-change_flags places places-set_flags

store_new-IsRefused :
    (w : Writer) (aside k : Text) (ts : List ℕ) (r : Ref) (refs to_aside : List Ref) (m : Mirror)
    → Loses w k
    → IsRefused m (store_new w aside k ts (r ∷ refs) to_aside m)
unfolding store_new
store_new-IsRefused w aside k ts r refs to_aside m l =
    let st = change_flags w (r ∷ refs) (k ∷ []) [] m in
    elim (Option-cases st.failure) [
      | inl e ↦
          rw (e, change-Loses w k r refs m l e, store_new)
            (record {
              fails = some_none BubbleFailure.not_kept;
              stays = places-change_flags w (r ∷ refs) (k ∷ []) [] m;
            })
      | inr (x, e) ↦
          rw (e, store_new)
            (record {
              fails = some_none (BubbleFailure.store_failed x);
              stays = places-change_flags w (r ∷ refs) (k ∷ []) [] m;
            })
    ]

places-strip_old :
    (w : Writer) (gs : List OldKeyword) (m : Mirror) → places (strip_old w gs m).1 ≡ places m
unfolding strip_old
places-strip_old w [] m = refl
places-strip_old w (g ∷ gs) m =
    let st = change_flags w g.refs [] (g.old ∷ []) m in
    let same = places-change_flags w g.refs [] (g.old ∷ []) m in
    elim (Option-cases st.failure) [
      | inl e ↦ rw (e, strip_old) (places-strip_old w gs st.mirror ∙ same)
      | inr (x, e) ↦ rw (e, strip_old) same
    ]

stripped-IsRefused :
    (w : Writer) (aside k : Text) (ts : List ℕ) (r : Ref) (refs to_aside : List Ref) (m : Mirror)
    (p : Option WriteFailure × Mirror)
    → Loses w k
    → places p.1 ≡ places m
    → IsRefused m (stripped w aside k ts (r ∷ refs) to_aside p)
stripped-IsRefused w aside k ts r refs to_aside m (some e, m') l h = record {
  fails = some_none (BubbleFailure.strip_failed e);
  stays = h;
}
stripped-IsRefused w aside k ts r refs to_aside m (none, m') l h =
    let s = store_new-IsRefused w aside k ts r refs to_aside m' l in
    record { fails = s.fails; stays = s.stays ∙ h }

retime-IsRefused :
    (w : Writer) (aside k : Text) (r : Ref) (refs to_aside : List Ref) (m : Mirror)
    → Loses w k
    → IsRefused m (retime w aside k (r ∷ refs) to_aside m)
unfolding retime
retime-IsRefused w aside k r refs to_aside m l =
    elim (Option-cases (old_keywords k (r ∷ refs) [] [] m)) [
      | inl e ↦ rw (e, retime) (record { fails = some_none BubbleFailure.not_found; stays = refl })
      | inr (x, e) ↦
          rw (e, retime)
            (stripped-IsRefused w aside k x.1 r refs to_aside m (strip_old w x.0 m) l
              (places-strip_old w x.0 m))
    ]

-- If every answer to a STORE of the keyword has some mail without it, then a bubble of at least one
-- mail fails, and every mail is where it was.
pub set_bubble-IsRefused :
    (w : Writer) (boxes : List Text) (when : Time) (r : Ref) (refs : List Ref) (m : Mirror)
    → Loses w (keyword when)
    → IsRefused m (set_bubble w boxes when (r ∷ refs) m)
unfolding set_bubble
set_bubble-IsRefused w boxes when r refs m l =
    let to_aside = select (λ (x : Ref). equal_fold x.folder inbox) (r ∷ refs) in
    elim (Bool-cases (not (is_empty_list to_aside) && not (box_named boxes box_aside).1)) [
      | inl e ↦ rw e (record { fails = some_none BubbleFailure.no_aside; stays = refl })
      | inr e ↦
          rw e (retime-IsRefused w (box_named boxes box_aside).0 (keyword when) r refs to_aside m l)
    ]
