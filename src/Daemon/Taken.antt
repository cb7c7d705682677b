-- ===== src/Daemon/Taken.antt =====
-- internal/daemon/id.go: a box of the Primary Account whose name starts with another account's.
use mathlib.Core.List.{append_assoc}
use mailbox_cli.Prelude.{
  ℕ, ◌≡◌, ◌≢◌, refl, sym, ap, ◌∙◌, subst, true, false, some, [], ◌++◌, Text, codes, text_eq_ne, mem,
  mem-append, All, arith,
}
use mailbox_cli.Prelude.Decimal.{decimal}
use mailbox_cli.Prelude.Trimmed.{starts_black, IsTrimmed}
use mailbox_cli.Daemon.Ids.{
  Account, Accounts, accounts, account_names, find_account, qualify, short_box, format_message_id,
  message_id, parse_message_id, on_account, resolve_id_on, resolve_id,
}
use mailbox_cli.Daemon.RoundTrip.{numbered-IsTrimmed, starts_black-append}
use mailbox_cli.Daemon.Resolve.{split_account-prefix, named_account, found-named}

-- What a box's name that starts with a name and a slash is printed as.
taken_id :
    (d : Accounts) (folder head rest : Text) (uid : ℕ)
    → d.primary.primary ≡ true
    → folder ≢ codes "INBOX"
    → short_box folder d.primary.mirrored ≡ head ++ (codes "/" ++ rest)
    → message_id d.primary folder uid ≡ head ++ (codes "/" ++ (rest ++ (codes ":" ++ decimal uid)))
unfolding message_id qualify format_message_id
taken_id d folder head rest uid primary ne short =
    rw (primary, text_eq_ne folder (codes "INBOX") ne, short)
      (append_assoc head (codes "/" ++ rest) (codes ":" ++ decimal uid))

taken-IsTrimmed :
    (head rest : Text) (uid : ℕ)
    → starts_black head ≡ true
    → IsTrimmed (head ++ (codes "/" ++ (rest ++ (codes ":" ++ decimal uid))))
taken-IsTrimmed head rest uid h =
    let front = codes "/" ++ (rest ++ codes ":") in
    let same : (head ++ front) ++ decimal uid
        ≡ head ++ (codes "/" ++ (rest ++ (codes ":" ++ decimal uid))) =
      append_assoc head front (decimal uid)
      ∙ ap (λ t. head ++ (codes "/" ++ t)) (append_assoc rest (codes ":") (decimal uid)) in
    subst IsTrimmed same (
      numbered-IsTrimmed (head ++ front) uid (
        subst (λ t. starts_black t ≡ true) (sym same)
          (starts_black-append head (codes "/" ++ (rest ++ (codes ":" ++ decimal uid))) h refl)))

-- If the printed name of a box of the Primary Account, which is not the Inbox, is the name of an
-- account, a slash and a rest, and no name of an account has a slash, then the id that is printed for a
-- message in it is resolved on that account, in the box that the rest names there.
pub primary_id_taken :
    (d : Accounts) (other : Account) (folder head rest : Text) (uid : ℕ)
    → d.primary.primary ≡ true
    → folder ≢ codes "INBOX"
    → short_box folder d.primary.mirrored ≡ head ++ (codes "/" ++ rest)
    → head ≢ []
    → mem b'/' head ≡ false
    → starts_black head ≡ true
    → find_account head (accounts d) ≡ some other
    → All (λ n. mem b'/' n ≡ false) (account_names d)
    → resolve_id d (message_id d.primary folder uid)
      ≡ on_account other
          (rest ++ (codes ":" ++ decimal uid))
          []
          (parse_message_id (rest ++ (codes ":" ++ decimal uid)) other.mirrored [])
unfolding resolve_id resolve_id_on
primary_id_taken d other folder head rest uid primary ne short named slash black found plain =
    let id = rest ++ (codes ":" ++ decimal uid) in
    let split =
      split_account-prefix head id (account_names d) slash named
        (taken-IsTrimmed head rest uid black)
        (unfold account_names in found-named head (accounts d) other found) plain in
    rw
      (
        taken_id d folder head rest uid primary ne short,
        split,
        named_account d head other named found,
        mem-append b':' rest (codes ":" ++ decimal uid),
      )
      (ground arith)
