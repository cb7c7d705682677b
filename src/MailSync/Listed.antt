-- ===== src/MailSync/Listed.antt =====
-- internal/sync/mailsync/reconciler.go, inOrder: what holds of every status holds of every one swept.
-- whatever becomes of the others.
use mailbox_cli.Prelude.{
  ◌≡◌, refl, ◌∙◌, subst, inl, inr, Option, none, some, List, [], ◌∷◌, ◌++◌, Text, text_eq, arith,
  if◌then◌else◌, All, Bool-cases,
}
use mailbox_cli.Mirror.Messages.{has_text}
use mailbox_cli.MailSync.Plan.{FolderStatus}
use mailbox_cli.MailSync.Sweep.{find_status, asked, unasked, in_order, mark_seen, put_found}

All-append :
    (P : FolderStatus → Type 0) (xs ys : List FolderStatus) → All P xs → All P ys → All P (xs ++ ys)
All-append P [] ys hx hy = hy
All-append P (x ∷ xs) ys (h, hx) hy = (h, All-append P xs ys hx hy)

All-find_status :
    (P : FolderStatus → Type 0) (name : Text) (sts : List FolderStatus) (st : FolderStatus)
    → All P sts
    → find_status name sts ≡ some st
    → P st
unfolding find_status
All-find_status P name [] st h e = cc
All-find_status P name (x ∷ sts) st (hx, h) e =
    later (find_status name sts) refl (All-find_status P name sts st h) e
  where
    later :
        (o : Option FolderStatus)
        → find_status name sts ≡ o
        → (find_status name sts ≡ some st → P st)
        → elim o [ some y ↦ some y | none ↦ if text_eq x.name name then some x else none ] ≡ some st
        → P st
    later (some y) q ih e' = ih (q ∙ e')
    later none q ih e' = elim (Bool-cases (text_eq x.name name)) [
      | inl b ↦ subst P (same x st (ground (arith, b, e'))) hx
      | inr b ↦ absurd (ground (arith, b, e'))
    ]
      where
        same : (a b : FolderStatus) → Path (Option FolderStatus) (some a) (some b) → a ≡ b
        same a b q' = cc

All-asked :
    (P : FolderStatus → Type 0) (sts : List FolderStatus) (folders seen : List Text)
    → All P sts
    → All P (asked sts folders seen).0
unfolding asked
All-asked P sts [] seen h = tt
All-asked P sts (f ∷ folders) seen h = elim (Bool-cases (has_text f seen)) [
  | inl e ↦ rw e (All-asked P sts folders seen h)
  | inr e ↦ rw e (
      found (find_status f sts) (λ st. All-find_status P f sts st h)
        (λ s. All-asked P sts folders s h))
]
  where
    found :
        (o : Option FolderStatus)
        → ((st : FolderStatus) → o ≡ some st → P st)
        → ((s : List Text) → All P (asked sts folders s).0)
        → All P (put_found o (asked sts folders (mark_seen f o seen)).0)
    found none h k = k seen
    found (some st) h k = (h st refl, k (f ∷ seen))

All-unasked :
    (P : FolderStatus → Type 0) (sts : List FolderStatus) (seen : List Text)
    → All P sts
    → All P (unasked sts seen)
unfolding unasked
All-unasked P [] seen h = tt
All-unasked P (st ∷ sts) seen (hx, h) = elim (Bool-cases (has_text st.name seen)) [
  | inl e ↦ rw e (All-unasked P sts seen h)
  | inr e ↦ rw e (hx, All-unasked P sts (st.name ∷ seen) h)
]

pub All-in_order :
    (P : FolderStatus → Type 0) (folders : List Text) (sts : List FolderStatus)
    → All P sts
    → All P (in_order folders sts)
unfolding in_order
All-in_order P folders sts h =
    All-append P (asked sts folders []).0 _ (All-asked P sts folders [] h) (All-unasked P sts _ h)
