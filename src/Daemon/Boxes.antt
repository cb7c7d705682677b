-- ===== src/Daemon/Boxes.antt =====
-- internal/daemon/id.go: the box that a printed name is read as.
use mailbox_cli.Prelude.{
  suc, ◌≡◌, ◌≢◌, refl, sym, ap, ◌∙◌, subst, inl, inr, Bool, true, false, ◌&&◌, not, Option, none,
  some, List, [], ◌∷◌, ◌++◌, Text, codes, text_eq, text_eq_iff, text_eq_refl, to_lower, length,
  arith, any_of, All, Bool-cases,
}
use mailbox_cli.Prelude.Cuts.{strip_prefix, equal_fold}
use mailbox_cli.Daemon.Ids.{find_fold, resolve_box, unprefixed, short_box}

length-to_lower : (s : Text) → length (to_lower s) ≡ length s
length-to_lower [] = refl
length-to_lower (c ∷ s) = ap suc (length-to_lower s)

length-equal_fold : (a b : Text) → equal_fold a b ≡ true → length a ≡ length b
unfolding equal_fold
length-equal_fold a b h =
    sym (length-to_lower a)
    ∙ ap length ((text_eq_iff (to_lower a) (to_lower b)).0 h)
    ∙ length-to_lower b

pub equal_fold_refl : (a : Text) → equal_fold a a ≡ true
unfolding equal_fold
equal_fold_refl a = text_eq_refl (to_lower a)

equal_fold_sym : (a b : Text) → equal_fold a b ≡ true → equal_fold b a ≡ true
unfolding equal_fold
equal_fold_sym a b h =
    (text_eq_iff (to_lower b) (to_lower a)).1 (sym ((text_eq_iff (to_lower a) (to_lower b)).0 h))

equal_fold_trans :
    (a b c : Text) → equal_fold a b ≡ true → equal_fold b c ≡ true → equal_fold a c ≡ true
unfolding equal_fold
equal_fold_trans a b c h g =
    (text_eq_iff (to_lower a) (to_lower c)).1
      ((text_eq_iff (to_lower a) (to_lower b)).0 h ∙ (text_eq_iff (to_lower b) (to_lower c)).0 g)

-- A child of the Inbox and its short name differ.
child_differs : (s : Text) → equal_fold (codes "INBOX/" ++ s) s ≡ false
child_differs s = elim (Bool-cases (equal_fold (codes "INBOX/" ++ s) s)) [
  | inl e ↦ absurd (omega (arith, length-equal_fold (codes "INBOX/" ++ s) s e))
  | inr e ↦ e
]

stripped : (p s t : Text) → strip_prefix p s ≡ some t → s ≡ p ++ t
stripped [] s t h = cc
stripped (c ∷ p) [] t h = cc
stripped (c ∷ p) (x ∷ s) t h = ground (arith, h, stripped p s t)

-- A mirrored box of which the account has no other spelling, and the Inbox under its own name.
pub record IsMirrored (folder : Text) (known : List Text) : Type 0 where
  pub there : any_of (λ k. text_eq k folder) known ≡ true
  pub alone : All (λ k. equal_fold k folder ≡ true → k ≡ folder) known
  pub inbox : any_of (λ k. text_eq k (codes "INBOX")) known ≡ true

find_fold-there :
    (folder : Text) (known : List Text)
    → any_of (λ k. text_eq k folder) known ≡ true
    → All (λ k. equal_fold k folder ≡ true → k ≡ folder) known
    → find_fold folder known ≡ some folder
unfolding find_fold
find_fold-there folder [] there alone = cc
find_fold-there folder (k ∷ known) there (one, alone) =
    ground (arith, there, find_fold-there folder known, alone, one, text_eq_iff k folder, same)
  where
    same : k ≡ folder → equal_fold k folder ≡ true
    same e = rw e (equal_fold_refl folder)

any_of-there :
    (p : Text → Bool) (x : Text) (known : List Text)
    → any_of (λ k. text_eq k x) known ≡ true
    → p x ≡ true
    → any_of p known ≡ true
any_of-there p x [] h px = cc
any_of-there p x (k ∷ known) h px =
    ground (arith, h, any_of-there p x known, px, text_eq_iff k x, same)
  where
    same : k ≡ x → p k ≡ p x
    same e = rw e refl

alone-there :
    (x folder : Text) (known : List Text)
    → any_of (λ k. text_eq k x) known ≡ true
    → All (λ k. equal_fold k folder ≡ true → k ≡ folder) known
    → equal_fold x folder ≡ true
    → x ≡ folder
alone-there x folder [] h alone e = cc
alone-there x folder (k ∷ known) h (one, alone) e = elim (Bool-cases (text_eq k x)) [
  | inl q ↦ sym ((text_eq_iff k x).0 q) ∙ one (rw ((text_eq_iff k x).0 q) e)
  | inr q ↦ alone-there x folder known (ground (arith, h, q)) alone e
]

inbox_either : equal_fold (codes "INBOX") (codes "inbox") ≡ true
unfolding equal_fold
inbox_either = refl

inbox_like : (s : Text) → equal_fold s (codes "inbox") ≡ true → equal_fold (codes "INBOX") s ≡ true
inbox_like s e =
    equal_fold_trans (codes "INBOX") (codes "inbox") s inbox_either
      (equal_fold_sym s (codes "inbox") e)

-- Of an account with the Inbox, only the Inbox is spelled like it.
no_inbox :
    (folder : Text) (known : List Text)
    → IsMirrored folder known
    → folder ≢ codes "INBOX"
    → equal_fold folder (codes "inbox") ≡ false
no_inbox folder known m ne = elim (Bool-cases (equal_fold folder (codes "inbox"))) [
  | inl e ↦
      absurd
        (ne (sym (alone-there (codes "INBOX") folder known m.inbox m.alone (inbox_like folder e))))
  | inr e ↦ e
]

-- The box is read by its whole name.
resolve_whole :
    (folder : Text) (known : List Text)
    → IsMirrored folder known
    → folder ≢ codes "INBOX"
    → resolve_box folder known ≡ folder
unfolding resolve_box
resolve_whole folder known m ne =
    rw (no_inbox folder known m ne, find_fold-there folder known m.there m.alone) refl

-- Some other box has the short name.
abbrev clashes : Text → Text → List Text → Bool
clashes folder short = any_of (λ k. not (equal_fold k folder) && equal_fold k short)

-- Nothing is spelled like both.
apart :
    (short k : Text) → equal_fold k (codes "INBOX/" ++ short) ≡ true → equal_fold k short ≡ false
apart short k e = elim (Bool-cases (equal_fold k short)) [
  | inl g ↦ absurd (
      not_both (
        equal_fold_trans (codes "INBOX/" ++ short) k short
          (equal_fold_sym k (codes "INBOX/" ++ short) e) g))
  | inr g ↦ g
]
  where
    not_both : equal_fold (codes "INBOX/" ++ short) short ≢ true
    not_both e = ground (arith, e, child_differs short)

find_fold_none :
    (short : Text) (known : List Text)
    → clashes (codes "INBOX/" ++ short) short known ≡ false
    → find_fold short known ≡ none
unfolding find_fold
find_fold_none short [] h = refl
find_fold_none short (k ∷ known) h = ground (arith, h, find_fold_none short known, apart short k)

inbox_no_child : (s : Text) → equal_fold (codes "INBOX") (codes "INBOX/" ++ s) ≡ false
inbox_no_child s = elim (Bool-cases (equal_fold (codes "INBOX") (codes "INBOX/" ++ s))) [
  | inl e ↦ absurd (omega (arith, length-equal_fold (codes "INBOX") (codes "INBOX/" ++ s) e))
  | inr e ↦ e
]

-- Of two names that are spelled like the Inbox one would be the Inbox.
short_no_inbox :
    (short : Text) (known : List Text)
    → any_of (λ k. text_eq k (codes "INBOX")) known ≡ true
    → clashes (codes "INBOX/" ++ short) short known ≡ false
    → equal_fold short (codes "inbox") ≡ false
short_no_inbox short known inbox h = elim (Bool-cases (equal_fold short (codes "inbox"))) [
  | inl e ↦ absurd (
      no_clash (
        any_of-there (λ k. not (equal_fold k (codes "INBOX/" ++ short)) && equal_fold k short)
          (codes "INBOX") known inbox (ground (arith, inbox_no_child short, inbox_like short e))))
  | inr e ↦ e
]
  where
    no_clash : clashes (codes "INBOX/" ++ short) short known ≢ true
    no_clash e = ground (arith, e, h)

resolve_child :
    (short : Text) (known : List Text)
    → IsMirrored (codes "INBOX/" ++ short) known
    → clashes (codes "INBOX/" ++ short) short known ≡ false
    → resolve_box short known ≡ codes "INBOX/" ++ short
unfolding resolve_box
resolve_child short known m h =
    rw
      (
        short_no_inbox short known m.inbox h,
        find_fold_none short known h,
        find_fold-there (codes "INBOX/" ++ short) known m.there m.alone,
      )
      refl

-- The printed name of a mirrored box is read as that box.
pub resolve_box-short_box :
    (folder : Text) (known : List Text)
    → IsMirrored folder known
    → folder ≢ codes "INBOX"
    → resolve_box (short_box folder known) known ≡ folder
unfolding short_box
resolve_box-short_box folder known m ne = by_prefix (strip_prefix (codes "INBOX/") folder) refl
  where
    by_child :
        (short : Text)
        → folder ≡ codes "INBOX/" ++ short
        → clashes folder short known ≡ false
        → resolve_box short known ≡ folder
    by_child short e q =
        resolve_child short known (subst (λ f. IsMirrored f known) e m)
          (subst (λ f. clashes f short known ≡ false) e q)
        ∙ sym e

    by_prefix :
        (o : Option Text)
        → strip_prefix (codes "INBOX/") folder ≡ o
        → resolve_box (unprefixed folder known o) known ≡ folder
    by_prefix none e = resolve_whole folder known m ne
    by_prefix (some short) e = elim (Bool-cases (clashes folder short known)) [
      | inl q ↦ rw q (resolve_whole folder known m ne)
      | inr q ↦ rw q (by_child short (stripped (codes "INBOX/") folder short e) q)
    ]
