-- ===== src/Daemon/Tests.antt =====
-- Ids of internal/daemon/id.go at concrete accounts.
use mailbox_cli.Prelude.{
  ℕ, ◌≡◌, ◌<◌, ◌^◌, ◌≢◌, refl, true, false, some, [], ◌∷◌, ◌++◌, codes, arith,
}
use mailbox_cli.Prelude.Cuts.{equal_fold}
use mailbox_cli.Prelude.Decimal.{decimal, digits}
use mailbox_cli.Prelude.Trimmed.{IsTrimmed}
use mailbox_cli.Daemon.Ids.{
  Account, Accounts, find_account, accounts, account_names, short_box, format_message_id,
  parse_message_id, message_id, resolve_id, on_account,
}
use mailbox_cli.Daemon.Boxes.{IsMirrored}
use mailbox_cli.Daemon.RoundTrip.{IsUid, parse_message_id-format_message_id}
use mailbox_cli.Daemon.Resolve.{IsSecondary, resolve_id-message_id}
use mailbox_cli.Daemon.Taken.{primary_id_taken}

abbrev home : Account
home = record {
  name = codes "home";
  primary = true;
  mirrored = codes "INBOX" ∷ codes "INBOX/Feed" ∷ codes "gmx/Old" ∷ [];
}

abbrev gmx : Account
gmx = record {
  name = codes "gmx";
  primary = false;
  mirrored = codes "INBOX" ∷ codes "Old" ∷ codes "INBOX/Feed" ∷ [];
}

abbrev both : Accounts
both = record { primary = home; others = gmx ∷ [] }

feed_mirrored : IsMirrored (codes "INBOX/Feed") home.mirrored
unfolding equal_fold
feed_mirrored = record {
  there = refl;
  alone = ((λ e. cc), ((λ e. refl), ((λ e. cc), tt)));
  inbox = refl;
}

gmx_feed_mirrored : IsMirrored (codes "INBOX/Feed") gmx.mirrored
unfolding equal_fold
gmx_feed_mirrored = record {
  there = refl;
  alone = ((λ e. cc), ((λ e. cc), ((λ e. refl), tt)));
  inbox = refl;
}

feed_ends : IsTrimmed (short_box (codes "INBOX/Feed") home.mirrored)
unfolding short_box equal_fold
feed_ends = (refl, refl)

gmx_feed_ends : IsTrimmed (short_box (codes "INBOX/Feed") gmx.mirrored)
unfolding short_box equal_fold
gmx_feed_ends = (refl, refl)

in_range : IsUid 342
in_range = record { positive = omega arith; bound = ground arith }

printed : format_message_id (codes "INBOX/Feed") 342 home.mirrored ≡ codes "Feed:342"
unfolding format_message_id short_box equal_fold decimal digits
printed = refl

parse_message_id-format_message_id_example :
    parse_message_id
      (format_message_id (codes "INBOX/Feed") 342 home.mirrored)
      home.mirrored
      (codes "INBOX")
    ≡ some (codes "INBOX/Feed", 342)
parse_message_id-format_message_id_example =
    parse_message_id-format_message_id (codes "INBOX/Feed") 342 home.mirrored feed_mirrored
      feed_ends in_range

index_positive : ◌≢◌ {A = ℕ} 2 0
index_positive = omega arith

index_bound : ◌<◌ 2 (2 ^ 63)
index_bound = ground arith

gmx-IsSecondary : IsSecondary both gmx
unfolding find_account accounts account_names equal_fold
gmx-IsSecondary = record {
  secondary = refl;
  named = λ e. cc;
  black = refl;
  found = refl;
  plain = (refl, (refl, tt));
}

resolve_id-message_id_example :
    resolve_id both (message_id gmx (codes "INBOX/Feed") 342) ≡ some (gmx, codes "INBOX/Feed", 342)
resolve_id-message_id_example =
    resolve_id-message_id both gmx (codes "INBOX/Feed") 342 gmx-IsSecondary refl gmx_feed_mirrored
      gmx_feed_ends in_range

old_printed : short_box (codes "gmx/Old") home.mirrored ≡ codes "gmx" ++ (codes "/" ++ codes "Old")
unfolding short_box
old_printed = refl

primary_id_taken_example :
    resolve_id both (message_id home (codes "gmx/Old") 7)
    ≡ on_account gmx
        (codes "Old" ++ (codes ":" ++ decimal 7))
        []
        (parse_message_id (codes "Old" ++ (codes ":" ++ decimal 7)) gmx.mirrored [])
primary_id_taken_example =
    primary_id_taken both gmx (codes "gmx/Old") (codes "gmx") (codes "Old") 7 refl (λ e. cc)
      old_printed (λ e. cc) refl refl gmx-IsSecondary.found gmx-IsSecondary.plain
