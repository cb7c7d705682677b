-- ===== src/Mirror/Forget.antt =====
-- internal/mirror/forget.go: folders and accounts that leave the Mirror.
use mailbox_cli.Prelude.{
  ℕ, ◌≡◌, ◌≢◌, refl, ◌∙◌, Bool, true, false, not, none, some, List, [], ◌∷◌, map, Text, text_eq,
  text_eq_iff, text_eq_ne, arith, ◌==◌, if◌then◌else◌, select, any_of, mem,
}
use mailbox_cli.Mirror.Types.{Message, Placement, FolderRow, Mirror}
use mailbox_cli.Mirror.Tx.{sits_in, placed, find_folder}
use mailbox_cli.Mirror.Messages.{has_text}
use mailbox_cli.Mirror.Placements.{placed-drop_placements}

-- A message that no placement points at.
abbrev pub is_placed : List Placement → Message → Bool
is_placed ps x = mem x.id (map (λ (p : Placement). p.message_id) ps)

-- The statements of ForgetFolder after the first are all run with the account for both of their
-- arguments, so the last two look for the folder that has the account's name.
unfoldable pub forget_folder : Text → Mirror → Mirror
forget_folder folder m =
    let ps = select (λ p. not (sits_in folder p)) m.placements in
    record m {
      placements = ps;
      messages = select (is_placed ps) m.messages;
      journal = select (λ i. not (text_eq i.folder m.account)) m.journal;
      folders = select (λ f. not (text_eq f.name m.account)) m.folders;
    }

unfoldable pub folder_names : Mirror → List Text
folder_names m = map (λ f. f.name) m.folders

unfoldable pub forget_all : List Text → List Text → Mirror → Mirror
forget_all keep [] m = m
forget_all keep (name ∷ names) m =
    forget_all keep names (if has_text name keep then m else forget_folder name m)

unfoldable pub keep_folders : List Text → Mirror → Mirror
keep_folders keep m = forget_all keep (folder_names m) m

unfoldable pub forget_account : Mirror → Mirror
forget_account m = record {
  account = m.account;
  folders = [];
  messages = [];
  placements = [];
  journal = [];
}

find_folder-select :
    (folder account : Text) (fs : List FolderRow)
    → text_eq account folder ≡ false
    → find_folder folder (select (λ f. not (text_eq f.name account)) fs) ≡ find_folder folder fs
unfolding find_folder
find_folder-select folder account [] h = refl
find_folder-select folder account (f ∷ fs) h = ground (
  arith,
  find_folder-select folder account fs h,
  text_eq_iff f.name account,
  text_eq_iff f.name folder,
  text_eq_iff account folder,
)

has_text-map :
    (folder account : Text) (fs : List FolderRow)
    → text_eq account folder ≡ false
    → has_text folder (map (λ f. f.name) (select (λ f. not (text_eq f.name account)) fs))
      ≡ has_text folder (map (λ f. f.name) fs)
unfolding has_text
has_text-map folder account [] h = refl
has_text-map folder account (f ∷ fs) h = ground (
  arith,
  has_text-map folder account fs h,
  text_eq_iff f.name account,
  text_eq_iff f.name folder,
  text_eq_iff account folder,
)

-- Forgetting a folder whose name is not the account's empties it of placements, leaves those of
-- every other folder, and keeps the folder's sync state and its name among the folders.
pub forget_folder_keeps_state :
    (folder : Text) (m : Mirror)
    → m.account ≢ folder
    → let m' = forget_folder folder m in
      ((g : Text) (u : ℕ)
        → placed g u m'.placements ≡ (if text_eq folder g then none else placed g u m.placements))
      × (find_folder folder m'.folders ≡ find_folder folder m.folders)
      × (has_text folder (folder_names m') ≡ has_text folder (folder_names m))
unfolding forget_folder folder_names
forget_folder_keeps_state folder m ne = (
  λ g u. placed-drop_placements g u folder m.placements,
  find_folder-select folder m.account m.folders (text_eq_ne m.account folder ne),
  has_text-map folder m.account m.folders (text_eq_ne m.account folder ne),
)

mem-ids :
    (g : Text) (u : ℕ) (ps : List Placement) (p : Placement)
    → placed g u ps ≡ some p
    → mem p.message_id (map (λ (q : Placement). q.message_id) ps) ≡ true
unfolding placed
mem-ids g u [] p h = cc
mem-ids g u (q ∷ ps) p h = ground (arith, mem-ids g u ps p)

any_of-select :
    (ids : List ℕ) (i : ℕ) (xs : List Message)
    → mem i ids ≡ true
    → any_of (λ x. x.id == i) (select (λ x. mem x.id ids) xs) ≡ any_of (λ x. x.id == i) xs
any_of-select ids i [] h = refl
any_of-select ids i (x ∷ xs) h = ground (arith, any_of-select ids i xs h, same x.id i ids)
  where
    same : (a b : ℕ) (l : List ℕ) → a ≡ b → mem a l ≡ mem b l
    same a b l e = rw e

-- Forgetting a folder keeps the message of every placement that stays.
pub forget_folder_keeps_messages :
    (folder : Text) (m : Mirror) (g : Text) (u : ℕ) (p : Placement)
    → placed g u (forget_folder folder m).placements ≡ some p
    → any_of (λ x. x.id == p.message_id) m.messages ≡ true
    → any_of (λ x. x.id == p.message_id) (forget_folder folder m).messages ≡ true
unfolding forget_folder
forget_folder_keeps_messages folder m g u p h held =
    let ps = select (λ q. not (sits_in folder q)) m.placements in
    any_of-select (map (λ (q : Placement). q.message_id) ps) p.message_id m.messages
      (mem-ids g u ps p h)
    ∙ held
