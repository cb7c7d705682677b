-- ===== src/MailSync/Folders.antt =====
-- internal/sync/mailsync/write.go, perFolder: every ref's folder comes once, with the ref's uid.
use mailbox_cli.Prelude.{
  ℕ, ◌≡◌, refl, ◌∙◌, ap, Bool, true, false, ◌&&◌, ◌||◌, List, [], ◌∷◌, Text, text_eq, text_eq_iff,
  text_ltb, ◌==◌, arith, Bool-cases, inl, inr, All, mem, any_of,
}
use mailbox_cli.Prelude.TextOrder.{text_ltb_trans, text_ltb_total, text_ltb_apart}
use mailbox_cli.MailSync.Writer.{Ref, insert_folder, folders_of, uids_in}

abbrev pub IsSorted : List Text → Type 0
IsSorted [] = Unit
IsSorted (f ∷ fs) = All (λ g. text_ltb f g ≡ true) fs × IsSorted fs

-- Each folder comes once.
abbrev pub ComeOnce : List Text → Type 0
ComeOnce [] = Unit
ComeOnce (f ∷ fs) = All (λ g. text_eq f g ≡ false) fs × ComeOnce fs

after_both :
    (f g : Text) (hs : List Text)
    → text_ltb f g ≡ true
    → All (λ h. text_ltb g h ≡ true) hs
    → All (λ h. text_ltb f h ≡ true) hs
after_both f g [] l a = tt
after_both f g (h ∷ hs) l (b, a) = (text_ltb_trans f g h l b, after_both f g hs l a)

All-insert_folder :
    (f g : Text) (hs : List Text)
    → text_ltb g f ≡ true
    → All (λ h. text_ltb g h ≡ true) hs
    → All (λ h. text_ltb g h ≡ true) (insert_folder f hs)
unfolding insert_folder
All-insert_folder f g [] l a = (l, tt)
All-insert_folder f g (h ∷ hs) l (b, a) = elim (Bool-cases (text_eq f h)) [
  | inl e ↦ rw e (b, a)
  | inr e ↦ rw e (elim (Bool-cases (text_ltb f h)) [
    | inl k ↦ rw k (l, (b, a))
    | inr k ↦ rw k (b, All-insert_folder f g hs l a)
  ])
]

insert_folder-IsSorted : (f : Text) (hs : List Text) → IsSorted hs → IsSorted (insert_folder f hs)
unfolding insert_folder
insert_folder-IsSorted f [] s = (tt, tt)
insert_folder-IsSorted f (h ∷ hs) (a, s) = elim (Bool-cases (text_eq f h)) [
  | inl e ↦ rw e (a, s)
  | inr e ↦ rw e (elim (Bool-cases (text_ltb f h)) [
    | inl k ↦ rw k ((k, after_both f h hs k a), (a, s))
    | inr k ↦
        rw k (All-insert_folder f h hs (text_ltb_total f h e k) a, insert_folder-IsSorted f hs s)
  ])
]

folders_of-IsSorted : (refs : List Ref) → IsSorted (folders_of refs)
unfolding folders_of
folders_of-IsSorted [] = tt
folders_of-IsSorted (r ∷ refs) =
    insert_folder-IsSorted r.folder (folders_of refs) (folders_of-IsSorted refs)

apart :
    (f : Text) (gs : List Text)
    → All (λ g. text_ltb f g ≡ true) gs
    → All (λ g. text_eq f g ≡ false) gs
apart f [] a = tt
apart f (g ∷ gs) (l, a) = (text_ltb_apart f g l, apart f gs a)

IsSorted-ComeOnce : (fs : List Text) → IsSorted fs → ComeOnce fs
IsSorted-ComeOnce [] s = tt
IsSorted-ComeOnce (f ∷ fs) (a, s) = (apart f fs a, IsSorted-ComeOnce fs s)

pub folders_of-ComeOnce : (refs : List Ref) → ComeOnce (folders_of refs)
folders_of-ComeOnce refs = IsSorted-ComeOnce (folders_of refs) (folders_of-IsSorted refs)

abbrev pub is_in : Text → List Text → Bool
is_in f [] = false
is_in f (g ∷ gs) = text_eq g f || is_in f gs

is_in-insert_folder :
    (f g : Text) (hs : List Text) → is_in f (insert_folder g hs) ≡ (text_eq g f || is_in f hs)
unfolding insert_folder
is_in-insert_folder f g [] = refl
is_in-insert_folder f g (h ∷ hs) = elim (Bool-cases (text_eq g h)) [
  | inl e ↦ rw e (twice (text_eq h f) (is_in f hs) (ap (λ x. text_eq x f) ((text_eq_iff g h).0 e)))
  | inr e ↦ rw e (elim (Bool-cases (text_ltb g h)) [
    | inl k ↦ rw k refl
    | inr k ↦ rw (k, is_in-insert_folder f g hs) (swapped (text_eq h f) (text_eq g f) (is_in f hs))
  ])
]
  where
    twice : (b c : Bool) {a : Bool} → a ≡ b → (b || c) ≡ (a || (b || c))
    twice true c e = rw e refl
    twice false c e = rw e refl

    swapped : (a b c : Bool) → (a || (b || c)) ≡ (b || (a || c))
    swapped true true c = refl
    swapped true false c = refl
    swapped false b c = refl

-- A place is among the refs exactly when its folder is swept with its uid.
abbrev pub is_named : Text → ℕ → List Ref → Bool
is_named f u refs = any_of (λ (r : Ref). text_eq r.folder f && r.uid == u) refs

pub mem-uids_in : (f : Text) (u : ℕ) (refs : List Ref) → mem u (uids_in f refs) ≡ is_named f u refs
unfolding uids_in
mem-uids_in f u [] = refl
mem-uids_in f u (r ∷ refs) = elim (Bool-cases (text_eq r.folder f)) [
  | inl e ↦ rw (e, mem-uids_in f u refs) refl
  | inr e ↦ rw (e, mem-uids_in f u refs) refl
]

pub is_in-folders_of :
    (f : Text) (u : ℕ) (refs : List Ref)
    → is_named f u refs ≡ true
    → is_in f (folders_of refs) ≡ true
unfolding folders_of
is_in-folders_of f u [] h = cc
is_in-folders_of f u (r ∷ refs) h =
    is_in-insert_folder f r.folder (folders_of refs) ∙ elim (Bool-cases (text_eq r.folder f)) [
      | inl e ↦ rw e refl
      | inr e ↦ rw e (is_in-folders_of f u refs (ground (arith, h, e)))
    ]

All-insert :
    (P : Text → Type 0) (f : Text) (hs : List Text) → P f → All P hs → All P (insert_folder f hs)
unfolding insert_folder
All-insert P f [] p a = (p, tt)
All-insert P f (h ∷ hs) p (b, a) = elim (Bool-cases (text_eq f h)) [
  | inl e ↦ rw e (b, a)
  | inr e ↦ rw e (elim (Bool-cases (text_ltb f h)) [
    | inl k ↦ rw k (p, (b, a))
    | inr k ↦ rw k (b, All-insert P f hs p a)
  ])
]

-- What holds of the folder of each ref holds of each folder that is swept.
pub All-folders_of :
    (P : Text → Type 0) (refs : List Ref)
    → All (λ (r : Ref). P r.folder) refs
    → All P (folders_of refs)
unfolding folders_of
All-folders_of P [] a = tt
All-folders_of P (r ∷ refs) (p, a) =
    All-insert P r.folder (folders_of refs) p (All-folders_of P refs a)
