-- ===== src/DavSync/Pruned.antt =====
-- internal/sync/davsync/davsync.go, Discover: which collections and objects it leaves.
use mailbox_cli.Prelude.{
  ℕ, suc, ◌≡◌, refl, ◌∙◌, Bool, true, false, ◌&&◌, ◌||◌, not, List, [], ◌∷◌, Text, text_eq,
  text_eq_iff, arith, if◌then◌else◌, select, any_of,
}
use mailbox_cli.DavSync.Types.{Collection, Shelf, Remote, Driver, Try, ok, fail, discover_failed}
use mailbox_cli.DavSync.Store.{
  put_collection, upsert_collection, max_collection_id, collections, sort_collections,
  insert_collection, forget_collection, has_url,
}
use mailbox_cli.DavSync.Discover.{
  Config, excluded, recorded, is_none, record_found, is_kept, is_dropped, prune, discover_found,
  discover,
}

-- Sorting keeps what some collection satisfies.
any_of-insert_collection :
    (p : Collection → Bool) (c : Collection) (cs : List Collection)
    → any_of p (insert_collection c cs) ≡ (p c || any_of p cs)
unfolding insert_collection
any_of-insert_collection p c [] = refl
any_of-insert_collection p c (x ∷ xs) = ground (arith, any_of-insert_collection p c xs)

any_of-sort_collections :
    (p : Collection → Bool) (cs : List Collection) → any_of p (sort_collections cs) ≡ any_of p cs
unfolding sort_collections
any_of-sort_collections p [] = refl
any_of-sort_collections p (c ∷ cs) =
    ground (arith, any_of-insert_collection p c (sort_collections cs), any_of-sort_collections p cs)

pub any_of-collections :
    (p : Collection → Bool) (m : Shelf) → any_of p (collections [] m) ≡ any_of p m.collections
unfolding collections
any_of-collections p m = any_of-sort_collections p m.collections

-- A URL that is recorded is held, and the others as before.
has_url-upsert_collection :
    (url : Text) (next : ℕ) (c : Collection) (cs : List Collection)
    → has_url url (upsert_collection next c cs) ≡ (text_eq c.url url || has_url url cs)
unfolding upsert_collection
has_url-upsert_collection url next c [] = ground arith
has_url-upsert_collection url next c (x ∷ xs) =
    ground (arith, has_url-upsert_collection url next c xs, text_eq_iff x.url c.url)

has_url-record_found :
    (cfg : Config) (url : Text) (found : List Remote) (m : Shelf)
    → has_url url (record_found cfg found m).collections
      ≡ (is_kept cfg found url || has_url url m.collections)
unfolding record_found is_kept
has_url-record_found cfg url [] m = refl
has_url-record_found cfg url (r ∷ found) m =
    has_url-record_found cfg url found
      (if excluded cfg r.name then m else put_collection (recorded cfg r) m)
    ∙ unfold put_collection recorded is_kept in
      ground (
        arith,
        has_url-upsert_collection url (suc (max_collection_id m.collections)) (recorded cfg r)
            m.collections,
      )

-- What forgetting one URL does to the others.
has_url-forget_collection :
    (url gone : Text) (m : Shelf)
    → has_url url (forget_collection gone m).collections
      ≡ (not (text_eq gone url) && has_url url m.collections)
unfolding forget_collection
has_url-forget_collection url gone m = without m.collections
  where
    without :
        (cs : List Collection)
        → has_url url (select (λ c. not (text_eq c.url gone)) cs)
          ≡ (not (text_eq gone url) && has_url url cs)
    without [] = ground arith
    without (c ∷ cs) =
        ground
          (arith, without cs, text_eq_iff c.url gone, text_eq_iff c.url url, text_eq_iff gone url)

-- Some collection with the URL is dropped.
abbrev pub drops : Config → Bool → List Remote → Text → List Collection → Bool
drops cfg partial found url = any_of (λ c. text_eq c.url url && is_dropped cfg partial found c)

pub has_url-prune :
    (cfg : Config) (partial : Bool) (found : List Remote) (url : Text) (known : List Collection)
    (m : Shelf)
    → has_url url (prune cfg partial found known m).collections
      ≡ (not (drops cfg partial found url known) && has_url url m.collections)
unfolding prune
has_url-prune cfg partial found url [] m = refl
has_url-prune cfg partial found url (c ∷ known) m =
    has_url-prune cfg partial found url known
      (if is_dropped cfg partial found c then forget_collection c.url m else m)
    ∙ ground (arith, has_url-forget_collection url c.url m)

-- Some collection with the URL has an excluded name.
abbrev pub is_excluded_at : Config → Text → List Collection → Bool
is_excluded_at cfg url = any_of (λ c. text_eq c.url url && excluded cfg c.name)

drops_lem :
    (cfg : Config) (partial : Bool) (found : List Remote) (url : Text) (cs : List Collection)
    → drops cfg partial found url cs ≡ (
        not (is_kept cfg found url)
        && (if partial then is_excluded_at cfg url cs else has_url url cs))
unfolding is_dropped
drops_lem cfg partial found url [] = ground arith
drops_lem cfg partial found url (c ∷ cs) =
    ground (arith, drops_lem cfg partial found url cs, text_eq_iff c.url url, same)
  where
    same : c.url ≡ url → is_kept cfg found c.url ≡ is_kept cfg found url
    same e = rw e

is_excluded_at-upsert_collection :
    (cfg : Config) (url : Text) (next : ℕ) (c : Collection) (cs : List Collection)
    → text_eq c.url url ≡ false
    → is_excluded_at cfg url (upsert_collection next c cs) ≡ is_excluded_at cfg url cs
unfolding upsert_collection
is_excluded_at-upsert_collection cfg url next c [] h = ground (arith, h)
is_excluded_at-upsert_collection cfg url next c (x ∷ xs) h = ground (
  arith,
  h,
  is_excluded_at-upsert_collection cfg url next c xs h,
  text_eq_iff x.url c.url,
  text_eq_iff x.url url,
  text_eq_iff c.url url,
)

is_excluded_at-record_found :
    (cfg : Config) (url : Text) (found : List Remote) (m : Shelf)
    → is_kept cfg found url ≡ false
    → is_excluded_at cfg url (record_found cfg found m).collections
      ≡ is_excluded_at cfg url m.collections
unfolding record_found is_kept
is_excluded_at-record_found cfg url [] m h = refl
is_excluded_at-record_found cfg url (r ∷ found) m h =
    is_excluded_at-record_found cfg url found
      (if excluded cfg r.name then m else put_collection (recorded cfg r) m) (ground (arith, h))
    ∙ unfold put_collection recorded in
      ground (
        arith,
        h,
        is_excluded_at-upsert_collection cfg url (suc (max_collection_id m.collections))
            (recorded cfg r) m.collections,
      )

has_url-discover_found :
    (cfg : Config) (found : List Remote) (partial : Bool) (url : Text) (m : Shelf)
    → has_url url (discover_found cfg found partial m).collections ≡ (
        is_kept cfg found url
        || (has_url url m.collections && partial && not (is_excluded_at cfg url m.collections)))
unfolding discover_found
has_url-discover_found cfg found partial url m =
    let put = record_found cfg found m in
    has_url-prune cfg partial found url (collections [] put) put
    ∙ ground (
      arith,
      any_of-collections (λ c. text_eq c.url url && is_dropped cfg partial found c) put,
      drops_lem cfg partial found url put.collections,
      has_url-record_found cfg url found m,
      is_excluded_at-record_found cfg url found m,
    )

abbrev answer : Shelf → Shelf → Bool → Try (List Collection) × Shelf
answer m left failed =
    if failed then (fail discover_failed, m) else (ok (collections [] left), left)

-- A discovery that succeeds answers with the collections that it leaves.
answered :
    (out : List Collection) (m left : Shelf) (failed : Bool)
    → (answer m left failed).0 ≡ ok out
    → (out ≡ collections [] left) × ((answer m left failed).1 ≡ left)
answered out m left true h = ground (arith, h)
answered out m left false h = (cc, refl)

-- If a discovery succeeds, then a URL is held afterwards, and listed in its answer, if and only if it
-- was found under a name that is not excluded, or it was held, some server failed and no collection
-- that was held at it has an excluded name.
pub discover_urls :
    (d : Driver) (cfg : Config) (m : Shelf) (out : List Collection) (url : Text)
    → (discover d cfg m).0 ≡ ok out
    → (has_url url out ≡ has_url url (discover d cfg m).1.collections)
      × (has_url url (discover d cfg m).1.collections ≡ (
          is_kept cfg d.collections.0 url
          || (has_url url m.collections
              && d.collections.1
              && not (is_excluded_at cfg url m.collections))))
unfolding discover
discover_urls d cfg m out url h =
    let (found, broken) = d.collections in
    let left = discover_found cfg found broken m in
    let (e, f) = answered out m left (broken && is_none found) h in
    (
      rw (e, f) (any_of-collections (λ c. text_eq c.url url) left),
      rw f (has_url-discover_found cfg found broken url m),
    )
