-- ===== src/MailSync/InOrder.antt =====
-- internal/sync/mailsync/reconciler.go, inOrder: which folders are swept, and how often.
use mailbox_cli.Prelude.{
  ℕ, suc, ◌≡◌, ◌⊎◌, ◌+◌, refl, Bool, true, false, ◌||◌, Option, none, some, List, [], ◌∷◌, ◌++◌,
  Text, text_eq, text_eq_iff, arith, if◌then◌else◌, any_of, Bool-cases, inl, inr,
}
use mailbox_cli.Mirror.Messages.{has_text}
use mailbox_cli.MailSync.Plan.{FolderStatus}
use mailbox_cli.MailSync.Sweep.{find_status, asked, unasked, in_order}

-- How many statuses have a name.
abbrev pub how_many : Text → List FolderStatus → ℕ
how_many name [] = 0
how_many name (st ∷ more) =
    if text_eq st.name name then suc (how_many name more) else how_many name more

abbrev pub is_listed : Text → List FolderStatus → Bool
is_listed name = any_of (λ st. text_eq st.name name)

how_many-append :
    (name : Text) (xs ys : List FolderStatus)
    → how_many name (xs ++ ys) ≡ how_many name xs + how_many name ys
how_many-append name [] ys = omega arith
how_many-append name (x ∷ xs) ys = ground (arith, how_many-append name xs ys)

how_many-unasked :
    (name : Text) (statuses : List FolderStatus) (seen : List Text)
    → how_many name (unasked statuses seen)
      ≡ (if has_text name seen then 0 else if is_listed name statuses then 1 else 0)
unfolding unasked has_text
how_many-unasked name [] seen = ground arith
how_many-unasked name (st ∷ more) seen = ground (
  arith,
  how_many-unasked name more seen,
  how_many-unasked name more (st.name ∷ seen),
  text_eq_iff st.name name,
)

-- The name of the status that is found.
abbrev FoundAs : Text → Option FolderStatus → Type 0
FoundAs name none = Unit
FoundAs name (some st) = st.name ≡ name

find_status-FoundAs :
    (name : Text) (statuses : List FolderStatus) → FoundAs name (find_status name statuses)
unfolding find_status
find_status-FoundAs name [] = tt
find_status-FoundAs name (st ∷ more) =
    later (find_status name more) (find_status-FoundAs name more)
      (Bool-cases (text_eq st.name name))
  where
    later :
        (o : Option FolderStatus)
        → FoundAs name o
        → (text_eq st.name name ≡ true) ⊎ (text_eq st.name name ≡ false)
        → FoundAs name
            (elim o [ some x ↦ some x | none ↦ if text_eq st.name name then some st else none ])
    later (some x) h c = h
    later none h (inl e) = rw e ((text_eq_iff st.name name).0 e)
    later none h (inr e) = rw e tt

abbrev is_found : Option FolderStatus → Bool
is_found none = false
is_found (some _) = true

is_found-find_status :
    (name : Text) (statuses : List FolderStatus)
    → is_found (find_status name statuses) ≡ is_listed name statuses
unfolding find_status
is_found-find_status name [] = refl
is_found-find_status name (st ∷ more) = ground (arith, is_found-find_status name more)

-- What the first loop takes is what it marks as seen.
how_many-asked :
    (name : Text) (statuses : List FolderStatus) (folders : List Text) (seen : List Text)
    → let (out, seen') = asked statuses folders seen in
      how_many name out + (if has_text name seen then 1 else 0)
      ≡ (if has_text name seen' then 1 else 0)
unfolding asked has_text
how_many-asked name statuses [] seen = omega arith
how_many-asked name statuses (f ∷ folders) seen = ground (
  arith,
  how_many-asked name statuses folders seen,
  how_many-asked name statuses folders (f ∷ seen),
  find_status-FoundAs f statuses,
  text_eq_iff f name,
)

seen-asked :
    (name : Text) (statuses : List FolderStatus) (folders : List Text) (seen : List Text)
    → has_text name (asked statuses folders seen).1 ≡ true
    → (has_text name seen || is_listed name statuses) ≡ true
unfolding asked has_text
seen-asked name statuses [] seen h = ground arith
seen-asked name statuses (f ∷ folders) seen h = ground (
  arith,
  seen-asked name statuses folders seen,
  seen-asked name statuses folders (f ∷ seen),
  is_found-find_status f statuses,
  text_eq_iff f name,
  same f name,
)
  where
    same : (a b : Text) → a ≡ b → is_listed a statuses ≡ is_listed b statuses
    same a b e = rw e

-- Each folder that the server reports is swept exactly once, however often it is asked for or
-- reported, and no other folder is.
pub in_order_once :
    (folders : List Text) (statuses : List FolderStatus) (name : Text)
    → how_many name (in_order folders statuses) ≡ (if is_listed name statuses then 1 else 0)
unfolding in_order has_text
in_order_once folders statuses name =
    let (first, seen) = asked statuses folders [] in
    ground (
      arith,
      how_many-append name first (unasked statuses seen),
      how_many-unasked name statuses seen,
      how_many-asked name statuses folders [],
      seen-asked name statuses folders [],
    )
