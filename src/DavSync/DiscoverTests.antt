-- ===== src/DavSync/DiscoverTests.antt =====
-- Runs of discovery, of syncs of several kinds, and of writes.
use mailbox_cli.Prelude.Cuts.{equal_fold}
use mailbox_cli.Prelude.{
  text_ltb, ◌≡◌, refl, true, false, none, [], ◌∷◌, codes, arith, All, ◌≢◌, trim, ◌&&◌, ◌||◌, not,
  ◌++◌,
}
use mailbox_cli.DavSync.Types.{Collection, ok}
use mailbox_cli.DavSync.Store.{
  has_url, put_collection, upsert_collection, max_collection_id, collections, sort_collections,
  insert_collection, comes_before, forget_collection,
}
use mailbox_cli.DavSync.Held.{Version, held_at}
use mailbox_cli.DavSync.Tests.{sound-Honest}
use mailbox_cli.DavSync.Discover.{
  excluded, same_name, is_kept, discover, discover_found, of_kinds, sync_kinds, record_found,
  recorded, prune, is_dropped, color_for, color_in,
}
use mailbox_cli.DavSync.Pruned.{is_excluded_at, discover_urls}
use mailbox_cli.DavSync.Kept.{Stands, Stays, discover-Stays}
use mailbox_cli.DavSync.Kinds.{sync_kinds-IsCurrent}
use mailbox_cli.DavSync.Urls.{absolute}
use mailbox_cli.DavSync.Rooted.{absolute_without_path}
use mailbox_cli.DavSync.Writer.{put}
use mailbox_cli.DavSync.Written.{IsLearnt, IsPut, put-IsPut}
use mailbox_cli.DavSync.Fixtures.{
  events, tasks, held, moved, has, sound, partly, config, after, writes, at_root,
}

abbrev home : Collection
home = record {
  id = 3;
  kind = codes "events";
  url = codes "w";
  name = codes "Home";
  color = codes "red";
  sync_token = [];
}

-- The partial discovery drops the excluded tasks, keeps the events and adds what it found.
partly_ok :
    ((discover partly config held).0 ≡ ok (home ∷ events ∷ []))
    × (has_url (codes "u") (discover partly config held).1.collections ≡ true)
unfolding discover discover_found record_found recorded excluded same_name equal_fold color_for
    color_in is_kept is_dropped prune put_collection upsert_collection max_collection_id collections
    sort_collections insert_collection comes_before text_ltb forget_collection trim
partly_ok = (refl, refl)

events-Stands : Stands 1 (codes "u") held.collections
events-Stands = record { there = refl; only = refl }

discover_urls_example :
    (has_url (codes "v") (home ∷ events ∷ [])
      ≡ has_url (codes "v") (discover partly config held).1.collections)
    × (has_url (codes "v") (discover partly config held).1.collections ≡ (
        is_kept config partly.collections.0 (codes "v")
        || (has_url (codes "v") held.collections
            && true
            && not (is_excluded_at config (codes "v") held.collections))))
discover_urls_example =
    discover_urls partly config held (home ∷ events ∷ []) (codes "v") partly_ok.0

discover-Stays_example : Stays 1 (codes "u") held (discover partly config held).1
discover-Stays_example = discover-Stays partly config held 1 (codes "u") events-Stands partly_ok.1

kinds_split : of_kinds [] held ≡ [] ++ events ∷ tasks ∷ []
unfolding of_kinds collections sort_collections insert_collection comes_before text_ltb
kinds_split = refl

others : All (λ (x : Collection). x.id ≢ 1) (tasks ∷ [])
others = ((λ e. omega (arith, e)), tt)

sync_kinds-IsCurrent_example : held_at 1 (codes "b") (sync_kinds sound [] held).shelf ≡ none
sync_kinds-IsCurrent_example =
    sync_kinds-IsCurrent sound [] held [] (tasks ∷ []) events false moved has kinds_split tt others
      sound-Honest (codes "b")

put-IsPut_example :
    (v : Version) × IsLearnt events (codes "n") (codes "sent") [] after v
    × IsPut writes events (codes "n") v held (put writes events (codes "n") (codes "sent") [] held)
put-IsPut_example = put-IsPut writes events (codes "n") (codes "sent") [] [] after held refl refl

absolute_without_path_example : absolute at_root (codes "/n.ics") ≡ codes "https:///n.ics"
absolute_without_path_example =
    absolute_without_path at_root (codes "https") (codes "h") (codes "n.ics") refl refl refl
