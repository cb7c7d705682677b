-- ===== src/Daemon/RoundTrip.antt =====
-- internal/daemon/id.go: an id that is printed is read as the message that it names.
use mathlib.Core.List.{append_assoc}
use mailbox_cli.Prelude.{
  ℕ, ◌^◌, ◌<◌, ◌≡◌, ◌≢◌, refl, sym, ap, ◌∙◌, subst, inl, inr, true, false, some, List, [], ◌∷◌,
  ◌++◌, Text, codes, text_eq, text_eq_iff, arith, Bool-cases,
}
use mailbox_cli.Prelude.Decimal.{decimal}
use mailbox_cli.Prelude.Numerals.{
  parse_uint, parse_uint-decimal, decimal_first, decimal_last, mem-decimal,
}
use mailbox_cli.Prelude.Trimmed.{
  starts_black, IsTrimmed, trim-IsTrimmed, last-IsTrimmed, cut_last_none, cut_last-append,
}
use mailbox_cli.Daemon.Ids.{
  is_empty, short_box, resolve_box, format_message_id, uid_in, parse_message_id,
}
use mailbox_cli.Daemon.Boxes.{IsMirrored, resolve_box-short_box}

-- A uid of IMAP: a number of 32 bits, and not 0.
pub record IsUid (uid : ℕ) : Type 0 where
  pub positive : uid ≢ 0
  pub bound : uid < 2 ^ 32

pub starts_black-append :
    (s t : Text) → starts_black s ≡ true → starts_black t ≡ true → starts_black (s ++ t) ≡ true
starts_black-append [] t h g = g
starts_black-append (c ∷ s) t h g = h

-- A text that ends in a number has no white space at its end.
pub numbered-IsTrimmed :
    (s : Text) (n : ℕ) → starts_black (s ++ decimal n) ≡ true → IsTrimmed (s ++ decimal n)
numbered-IsTrimmed s n h =
    let (front, last, e, space) = decimal_last n in
    subst IsTrimmed (append_assoc s front (last ∷ []) ∙ ap (λ t. s ++ t) (sym e)) (
      last-IsTrimmed (s ++ front) last
        (subst (λ t. starts_black t ≡ true)
          (ap (λ t. s ++ t) e ∙ sym (append_assoc s front (last ∷ []))) h)
        space)

pub decimal_black : (n : ℕ) → starts_black (decimal n) ≡ true
decimal_black n = let (first, rest, e, space) = decimal_first n in rw (e, space) refl

decimal_not_empty : (n : ℕ) → is_empty (decimal n) ≡ false
decimal_not_empty n = let (first, rest, e, space) = decimal_first n in rw e refl

pub pair_not_empty : (s : Text) (c : ℕ) (t : Text) → is_empty (s ++ c ∷ t) ≡ false
pair_not_empty [] c t = refl
pair_not_empty (x ∷ s) c t = refl

-- A text, a colon and a number.
pub pair-IsTrimmed :
    (s : Text) (n : ℕ) → starts_black s ≡ true → IsTrimmed (s ++ (codes ":" ++ decimal n))
pair-IsTrimmed s n h = subst IsTrimmed (append_assoc s (codes ":") (decimal n)) (
    numbered-IsTrimmed (s ++ codes ":") n (
      subst (λ t. starts_black t ≡ true) (sym (append_assoc s (codes ":") (decimal n)))
        (starts_black-append s (codes ":" ++ decimal n) h refl)))

decimal-IsTrimmed : (n : ℕ) → IsTrimmed (decimal n)
decimal-IsTrimmed n = numbered-IsTrimmed [] n (decimal_black n)

uid_is_read :
    (folder : Text) (uid : ℕ)
    → IsUid uid
    → uid_in folder (parse_uint (2 ^ 32) (decimal uid)) ≡ some (folder, uid)
uid_is_read folder uid is =
    rw (parse_uint-decimal (2 ^ 32) uid is.bound) (ground (arith, is.positive))

-- A box and a uid, as they are printed.
boxed_is_read :
    (box folder bare : Text) (uid : ℕ) (known : List Text)
    → IsTrimmed box
    → resolve_box box known ≡ folder
    → IsUid uid
    → parse_message_id (box ++ (codes ":" ++ decimal uid)) known bare ≡ some (folder, uid)
unfolding parse_message_id
boxed_is_read box folder bare uid known trimmed resolved is =
    let v = box ++ (codes ":" ++ decimal uid) in
    rw
      (
        trim-IsTrimmed v (pair-IsTrimmed box uid trimmed.0),
        pair_not_empty box 58 (decimal uid),
        cut_last-append b':' box (decimal uid) (mem-decimal b':' uid refl),
        trim-IsTrimmed box trimmed,
        trim-IsTrimmed (decimal uid) (decimal-IsTrimmed uid),
        resolved,
      )
      (uid_is_read folder uid is)

bare_is_read :
    (bare : Text) (uid : ℕ) (known : List Text)
    → IsUid uid
    → parse_message_id (decimal uid) known bare ≡ some (bare, uid)
unfolding parse_message_id
bare_is_read bare uid known is =
    rw
      (
        trim-IsTrimmed (decimal uid) (decimal-IsTrimmed uid),
        decimal_not_empty uid,
        cut_last_none b':' (decimal uid) (mem-decimal b':' uid refl),
      )
      (uid_is_read bare uid is)

pub any_is_read :
    (folder bare : Text) (uid : ℕ) (known : List Text)
    → IsMirrored folder known
    → IsTrimmed (short_box folder known)
    → IsUid uid
    → (folder ≡ codes "INBOX" → bare ≡ codes "INBOX")
    → parse_message_id (format_message_id folder uid known) known bare ≡ some (folder, uid)
unfolding format_message_id
any_is_read folder bare uid known m trimmed is inbox =
    elim (Bool-cases (text_eq folder (codes "INBOX"))) [
      | inl e ↦
          let q = (text_eq_iff folder (codes "INBOX")).0 e in
          rw e (bare_is_read bare uid known is ∙ ap (λ f. some (f, uid)) (inbox q ∙ sym q))
      | inr e ↦ rw e (
          boxed_is_read (short_box folder known) folder bare uid known trimmed
            (resolve_box-short_box folder known m (λ q. by_inbox e q)) is)
    ]
  where
    by_inbox : text_eq folder (codes "INBOX") ≡ false → folder ≢ codes "INBOX"
    by_inbox e q = ground (arith, e, text_eq_iff folder (codes "INBOX"), q)

-- If a box is mirrored, the account has no other spelling of it and has the Inbox, and its printed name
-- has no white space at its ends, then the id of a message in it is read as the box and the uid, where
-- a bare uid is in the Inbox.
pub parse_message_id-format_message_id :
    (folder : Text) (uid : ℕ) (known : List Text)
    → IsMirrored folder known
    → IsTrimmed (short_box folder known)
    → IsUid uid
    → parse_message_id (format_message_id folder uid known) known (codes "INBOX")
      ≡ some (folder, uid)
parse_message_id-format_message_id folder uid known m trimmed is =
    any_is_read folder (codes "INBOX") uid known m trimmed is (λ q. refl)
