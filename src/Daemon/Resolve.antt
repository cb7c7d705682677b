-- ===== src/Daemon/Resolve.antt =====
-- internal/daemon/id.go: an id that carries its account, and one with an attachment.
use mathlib.Core.List.{append_assoc}
use mailbox_cli.Prelude.{
  ℕ, ◌^◌, ◌<◌, ◌≡◌, ◌≢◌, refl, sym, ap, ◌∙◌, subst, inl, inr, true, false, ◌&&◌, not, some, List,
  [], ◌∷◌, ◌++◌, map, Text, codes, text_eq, text_eq_iff, text_eq_ne, to_lower, mem, mem-append,
  any_of, All, arith, if◌then◌else◌, Bool-cases,
}
use mailbox_cli.Prelude.Cuts.{cut_first, equal_fold}
use mailbox_cli.Prelude.Decimal.{decimal}
use mailbox_cli.Prelude.Numerals.{parse_uint, parse_uint-decimal, mem-decimal, decimal_first}
use mailbox_cli.Prelude.Trimmed.{starts_black, IsTrimmed, trim-IsTrimmed, cut_last-append}
use mailbox_cli.Daemon.Ids.{
  Account, Accounts, accounts, account_names, find_account, account_named, is_empty, split_account,
  qualify, short_box, format_message_id, message_id, attachment_id, parse_index,
  parse_attachment_id, home_or_named, resolve_id_on, resolve_id,
}
use mailbox_cli.Daemon.Boxes.{IsMirrored}
use mailbox_cli.Daemon.RoundTrip.{
  IsUid, numbered-IsTrimmed, any_is_read, pair-IsTrimmed, starts_black-append, decimal_black,
  parse_message_id-format_message_id,
}

-- An id that is printed starts with no white space.
format_black :
    (folder : Text) (uid : ℕ) (known : List Text)
    → starts_black (short_box folder known) ≡ true
    → starts_black (format_message_id folder uid known) ≡ true
unfolding format_message_id
format_black folder uid known h = elim (Bool-cases (text_eq folder (codes "INBOX"))) [
  | inl e ↦ rw e (decimal_black uid)
  | inr e ↦ rw e (starts_black-append (short_box folder known) (codes ":" ++ decimal uid) h refl)
]

parse_index-decimal : (n : ℕ) → n < 2 ^ 63 → parse_index (decimal n) ≡ some n
parse_index-decimal n h =
    by_text (decimal n) (mem-decimal b'+' n refl) (decimal_first n).2
      (parse_uint-decimal (2 ^ 63) n h)
  where
    by_text :
        (t : Text)
        → mem b'+' t ≡ false
        → t ≡ (decimal_first n).0 ∷ (decimal_first n).1
        → parse_uint (2 ^ 63) t ≡ some n
        → parse_index t ≡ some n
    by_text [] m e p = cc
    by_text (c ∷ t) m e p = unfold parse_index in ground (arith, m, p)

-- If the id of a message of the Primary Account is read as the message, then so is the id of one of its
-- attachments, with the attachment's index, which is not 0.
pub parse_attachment_id-attachment_id :
    (a : Account) (folder : Text) (uid index : ℕ)
    → a.primary ≡ true
    → IsMirrored folder a.mirrored
    → IsTrimmed (short_box folder a.mirrored)
    → IsUid uid
    → index ≢ 0
    → index < 2 ^ 63
    → parse_attachment_id (attachment_id a folder uid index) a.mirrored ≡ some (folder, uid, index)
unfolding parse_attachment_id attachment_id message_id qualify
parse_attachment_id-attachment_id a folder uid index primary m trimmed is positive bound =
    let id = format_message_id folder uid a.mirrored in
    let v = id ++ (codes ":" ++ decimal index) in
    rw
      (
        primary,
        trim-IsTrimmed v (pair-IsTrimmed id index (format_black folder uid a.mirrored trimmed.0)),
        cut_last-append b':' id (decimal index) (mem-decimal b':' index refl),
        parse_index-decimal index bound,
        parse_message_id-format_message_id folder uid a.mirrored m trimmed is,
      )
      (ground (arith, positive))

-- Account names.
mem-to_lower : (s : Text) → mem b'/' (to_lower s) ≡ mem b'/' s
mem-to_lower [] = refl
mem-to_lower (c ∷ s) = ground (arith, mem-to_lower s)

slash_differs : (n v : Text) → mem b'/' n ≡ false → mem b'/' v ≡ true → equal_fold n v ≡ false
unfolding equal_fold
slash_differs n v h g = elim (Bool-cases (text_eq (to_lower n) (to_lower v))) [
  | inl e ↦ ground (
    arith,
    h,
    g,
    sym (mem-to_lower n)
        ∙ ap (mem b'/') ((text_eq_iff (to_lower n) (to_lower v)).0 e)
        ∙ mem-to_lower v,
  )
  | inr e ↦ e
]

whole_is_none :
    (names : List Text) (v : Text)
    → All (λ n. mem b'/' n ≡ false) names
    → mem b'/' v ≡ true
    → any_of (λ n. not (is_empty n) && equal_fold n v) names ≡ false
whole_is_none [] v h g = refl
whole_is_none (n ∷ names) v (h, more) g =
    ground (arith, slash_differs n v h g, whole_is_none names v more g)

mem-slash : (head rest : Text) → mem b'/' (head ++ (codes "/" ++ rest)) ≡ true
mem-slash head rest = ground (arith, mem-append b'/' head (codes "/" ++ rest))

-- The prefix of an id is an account where it names one.
pub split_account-prefix :
    (head rest : Text) (names : List Text)
    → mem b'/' head ≡ false
    → head ≢ []
    → IsTrimmed (head ++ (codes "/" ++ rest))
    → any_of (λ n. equal_fold n head) names ≡ true
    → All (λ n. mem b'/' n ≡ false) names
    → split_account (head ++ (codes "/" ++ rest)) names ≡ (head, rest)
unfolding split_account
split_account-prefix head rest names h ne trimmed known plain =
    let v = head ++ (codes "/" ++ rest) in
    rw
      (
        trim-IsTrimmed v trimmed,
        whole_is_none names v plain (mem-slash head rest),
        cut_first b'/' [] head rest h,
        text_eq_ne head [] ne,
        known,
      )
      refl

-- A Secondary Account of the daemon: it is found by its name, which is not empty and has no slash, as
-- no name of an account has, and no white space at its start.
pub record IsSecondary (d : Accounts) (a : Account) : Type 0 where
  pub secondary : a.primary ≡ false
  pub named : a.name ≢ []
  pub black : starts_black a.name ≡ true
  pub found : find_account a.name (accounts d) ≡ some a
  pub plain : All (λ n. mem b'/' n ≡ false) (account_names d)

pub found-named :
    (name : Text) (others : List Account) (a : Account)
    → find_account name others ≡ some a
    → any_of (λ n. equal_fold n name) (map (λ (x : Account). x.name) others) ≡ true
unfolding find_account
found-named name [] a h = cc
found-named name (x ∷ others) a h = ground (arith, h, found-named name others a)

qualify_lem :
    (d : Accounts) (a : Account) (id : Text)
    → IsSecondary d a
    → qualify a id ≡ a.name ++ (codes "/" ++ id)
unfolding qualify
qualify_lem d a id is = ground (arith, is.secondary, text_eq_ne a.name [] is.named)

-- An id ends in its uid.
format_last :
    (folder : Text) (uid : ℕ) (known : List Text)
    → (front : Text) × (format_message_id folder uid known ≡ front ++ decimal uid)
unfolding format_message_id
format_last folder uid known = elim (Bool-cases (text_eq folder (codes "INBOX"))) [
  | inl e ↦ rw e ([], refl)
  | inr e ↦ rw e (
    short_box folder known ++ codes ":",
    sym (append_assoc (short_box folder known) (codes ":") (decimal uid)),
  )
]

qualified-IsTrimmed :
    (name folder : Text) (uid : ℕ) (known : List Text)
    → starts_black name ≡ true
    → IsTrimmed (name ++ (codes "/" ++ format_message_id folder uid known))
qualified-IsTrimmed name folder uid known h =
    let (front, e) = format_last folder uid known in
    rw e (
      subst IsTrimmed (append_assoc name (codes "/" ++ front) (decimal uid)) (
        numbered-IsTrimmed (name ++ (codes "/" ++ front)) uid (
          subst (λ t. starts_black t ≡ true)
            (sym (append_assoc name (codes "/" ++ front) (decimal uid)))
            (starts_black-append name (codes "/" ++ (front ++ decimal uid)) h refl))))

pub named_account :
    (d : Accounts) (name : Text) (a : Account)
    → name ≢ []
    → find_account name (accounts d) ≡ some a
    → home_or_named d d.primary name ≡ some a
unfolding account_named
named_account d [] a ne h = absurd (ne refl)
named_account d (c ∷ name) a ne h = h

-- The box of a bare uid is the Inbox.
bare_box :
    (folder : Text) (uid : ℕ) (known : List Text)
    → (box : Text) × ((if mem b':' (format_message_id folder uid known)
          then some []
          else some (codes "INBOX"))
        ≡ some box)
      × (folder ≡ codes "INBOX" → box ≡ codes "INBOX")
unfolding format_message_id
bare_box folder uid known = elim (Bool-cases (text_eq folder (codes "INBOX"))) [
  | inl e ↦ rw (e, mem-decimal b':' uid refl) (codes "INBOX", refl, λ q. refl)
  | inr e ↦
      rw (e, mem-append b':' (short_box folder known) (codes ":" ++ decimal uid))
        ([], ground arith, λ q. absurd (ground (arith, e, text_eq_iff folder (codes "INBOX"), q)))
]

-- If an account is secondary, and the id of a message in one of its boxes is read as that message, then
-- the id with the account's name is resolved to the account and the message.
pub resolve_id-message_id :
    (d : Accounts) (a : Account) (folder : Text) (uid : ℕ)
    → IsSecondary d a
    → mem b'/' a.name ≡ false
    → IsMirrored folder a.mirrored
    → IsTrimmed (short_box folder a.mirrored)
    → IsUid uid
    → resolve_id d (message_id a folder uid) ≡ some (a, folder, uid)
unfolding resolve_id resolve_id_on message_id
resolve_id-message_id d a folder uid is slash m trimmed u =
    let id = format_message_id folder uid a.mirrored in
    let split =
      split_account-prefix a.name id (account_names d) slash is.named
        (qualified-IsTrimmed a.name folder uid a.mirrored is.black)
        (unfold account_names in found-named a.name (accounts d) a is.found) is.plain in
    let (box, chosen, inbox) = bare_box folder uid a.mirrored in
    rw
      (
        qualify_lem d a id is,
        split,
        named_account d a.name a is.named is.found,
        chosen,
        any_is_read folder box uid a.mirrored m trimmed u inbox,
      )
      refl
