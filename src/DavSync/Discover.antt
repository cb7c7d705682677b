-- ===== src/DavSync/Discover.antt =====
-- internal/sync/davsync/davsync.go: which collections there are, and the syncs of all of them.
use mailbox_cli.Prelude.{
  Bool, true, false, ◌&&◌, ◌||◌, not, Option, none, some, List, [], ◌∷◌, Text, text_eq, trim,
  if◌then◌else◌, select, any_of,
}
use mailbox_cli.Prelude.Cuts.{equal_fold}
use mailbox_cli.DavSync.Types.{
  Collection, Shelf, Remote, Driver, Outcome, Failure, discover_failed, Try, ok, fail,
}
use mailbox_cli.DavSync.Store.{put_collection, collections, forget_collection}
use mailbox_cli.DavSync.Reconciler.{is_empty, sync}

-- Exclude and Colors, the latter in the order that the map is ranged over.
pub record Config : Type 0 where
  pub exclude : List Text
  pub colors : List (Text × Text)

-- strings.EqualFold(strings.TrimSpace(a), strings.TrimSpace(b))
unfoldable pub same_name : Text → Text → Bool
same_name a b = equal_fold (trim a) (trim b)

unfoldable pub excluded : Config → Text → Bool
excluded cfg name = any_of (λ e. same_name e name) cfg.exclude

unfoldable pub color_in : List (Text × Text) → Text → Text
color_in [] name = []
color_in ((key, color) ∷ colors) name =
    let rest = color_in colors name in if same_name key name then color else rest

unfoldable pub color_for : Config → Text → Text
color_for cfg name = color_in cfg.colors name

-- A collection as it is recorded.
unfoldable pub recorded : Config → Remote → Collection
recorded cfg r =
    let color = color_for cfg r.name in
    record {
      id = 0;
      kind = r.kind;
      url = r.url;
      name = r.name;
      color = if is_empty color then r.color else color;
      sync_token = [];
    }

-- The collections that were found are recorded, but for the excluded ones.
unfoldable pub record_found : Config → List Remote → Shelf → Shelf
record_found cfg [] m = m
record_found cfg (r ∷ found) m =
    record_found cfg found (if excluded cfg r.name then m else put_collection (recorded cfg r) m)

-- keep: the URLs that were recorded.
unfoldable pub is_kept : Config → List Remote → Text → Bool
is_kept cfg found url = any_of (λ r. not (excluded cfg r.name) && text_eq r.url url) found

-- A collection that was not recorded is dropped if the answer was whole, or if it is excluded.
unfoldable pub is_dropped : Config → Bool → List Remote → Collection → Bool
is_dropped cfg partial found c =
    not (is_kept cfg found c.url) && (not partial || excluded cfg c.name)

unfoldable pub prune : Config → Bool → List Remote → List Collection → Shelf → Shelf
prune cfg partial found [] m = m
prune cfg partial found (c ∷ known) m =
    prune cfg partial found known
      (if is_dropped cfg partial found c then forget_collection c.url m else m)

-- The two loops of Discover, with what was found and whether some server failed.
unfoldable pub discover_found : Config → List Remote → Bool → Shelf → Shelf
discover_found cfg found partial m =
    let put = record_found cfg found m in prune cfg partial found (collections [] put) put

abbrev pub is_none : List Remote → Bool
is_none [] = true
is_none (r ∷ found) = false

-- Reconciler.Discover
unfoldable pub discover : Driver → Config → Shelf → Try (List Collection) × Shelf
discover d cfg m =
    let (found, broken) = d.collections in
    let end = discover_found cfg found broken m in
    if broken && is_none found then (fail discover_failed, m) else (ok (collections [] end), end)

-- The collections of the kinds named, or all of them.
unfoldable pub of_kinds : List Text → Shelf → List Collection
of_kinds [] m = collections [] m
of_kinds (k ∷ kinds) m =
    select (λ c. any_of (λ kind. text_eq kind c.kind) (k ∷ kinds)) (collections [] m)

-- What the syncs came to: the outcomes by name, the first error, and the tables.
pub record Synced : Type 0 where
  pub outcomes : List (Text × Outcome)
  pub first : Option (Text × Failure)
  pub shelf : Shelf

abbrev pub or_first : Option (Text × Failure) → Text × Failure → Option (Text × Failure)
or_first none e = some e
or_first (some first) e = some first

unfoldable pub noted : Collection → Try Outcome × Shelf → Synced → Synced
noted c (ok out, m) st = record st { outcomes = (c.name, out) ∷ st.outcomes; shelf = m }
noted c (fail e, m) st = record st { first = or_first st.first (c.name, e); shelf = m }

-- One that fails does not stop the others.
unfoldable pub sync_each : Driver → List Collection → Synced → Synced
sync_each d [] st = st
sync_each d (c ∷ cols) st = sync_each d cols (noted c (sync d c st.shelf) st)

-- Reconciler.SyncKinds
unfoldable pub sync_kinds : Driver → List Text → Shelf → Synced
sync_kinds d kinds m =
    sync_each d (of_kinds kinds m) (record { outcomes = []; first = none; shelf = m })
