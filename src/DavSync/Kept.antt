-- ===== src/DavSync/Kept.antt =====
-- internal/sync/davsync/davsync.go, Discover: a collection that stays keeps its objects and its token.
use mailbox_cli.Prelude.{
  ℕ, suc, ◌≤◌, ◌≡◌, ◌≢◌, refl, ◌∙◌, Bool, true, false, ◌&&◌, not, List, [], ◌∷◌, Text, text_eq,
  arith, ◌==◌, if◌then◌else◌, any_of,
}
use mailbox_cli.DavSync.Types.{Collection, Shelf, Remote, Driver, Try, ok, fail, discover_failed}
use mailbox_cli.DavSync.Store.{
  put_collection, upsert_collection, max_collection_id, collections, forget_collection, has_url,
}
use mailbox_cli.DavSync.Discover.{
  Config, excluded, recorded, is_none, record_found, is_dropped, prune, discover_found, discover,
}
use mailbox_cli.DavSync.Held.{held_at}
use mailbox_cli.DavSync.Converges.{is_collection, token_at}
use mailbox_cli.DavSync.Left.{is_collection-left, strays-left, token_at-left, find_object-left}
use mailbox_cli.DavSync.Pruned.{drops, has_url-prune}

-- A row has the id, and every row that has it is at the URL.
pub record Stands (id : ℕ) (url : Text) (cs : List Collection) : Type 0 where
  pub there : is_collection id cs ≡ true
  pub only : any_of (λ c. c.id == id && not (text_eq c.url url)) cs ≡ false

-- What stays of a collection: its row, its objects and its token.
pub record Stays (id : ℕ) (url : Text) (m m' : Shelf) : Type 0 where
  pub stands : Stands id url m'.collections
  pub objects_of : (key : Text) → held_at id key m' ≡ held_at id key m
  pub token : token_at id m'.collections ≡ token_at id m.collections

unchanged : (id : ℕ) (url : Text) (m : Shelf) → Stands id url m.collections → Stays id url m m
unchanged id url m stands = record { stands = stands; objects_of = λ key. refl; token = refl }

carry_on :
    (id : ℕ) (url : Text) (a b c : Shelf) → Stays id url a b → Stays id url b c → Stays id url a c
carry_on id url a b c ab bc = record {
  stands = bc.stands;
  objects_of = λ key. bc.objects_of key ∙ ab.objects_of key;
  token = bc.token ∙ ab.token;
}

id-bound : (id : ℕ) (cs : List Collection) → is_collection id cs ≡ true → id ≤ max_collection_id cs
unfolding max_collection_id
id-bound id [] h = ground (arith, h)
id-bound id (c ∷ cs) h = ground (arith, h, id-bound id cs)

new_id :
    (id : ℕ) (cs : List Collection) → is_collection id cs ≡ true → id ≢ suc (max_collection_id cs)
new_id id cs h = omega (arith, id-bound id cs h)

module _ (id : ℕ) (url : Text) (next : ℕ) (new : Collection) (fresh : id ≢ next) where
  is_collection-upsert_collection :
      (cs : List Collection)
      → is_collection id (upsert_collection next new cs) ≡ is_collection id cs
  unfolding upsert_collection
  is_collection-upsert_collection [] = ground (arith, fresh)
  is_collection-upsert_collection (c ∷ cs) = ground (arith, is_collection-upsert_collection cs)

  only-upsert_collection :
      (cs : List Collection)
      → any_of (λ c. c.id == id && not (text_eq c.url url)) (upsert_collection next new cs)
        ≡ any_of (λ c. c.id == id && not (text_eq c.url url)) cs
  unfolding upsert_collection
  only-upsert_collection [] = ground (arith, fresh)
  only-upsert_collection (c ∷ cs) = ground (arith, only-upsert_collection cs)

  token_at-upsert_collection :
      (cs : List Collection) → token_at id (upsert_collection next new cs) ≡ token_at id cs
  unfolding upsert_collection
  token_at-upsert_collection [] = ground (arith, fresh)
  token_at-upsert_collection (c ∷ cs) = ground (arith, token_at-upsert_collection cs)

put_collection-Stays :
    (id : ℕ) (url : Text) (c : Collection) (m : Shelf)
    → Stands id url m.collections
    → Stays id url m (put_collection c m)
unfolding put_collection
put_collection-Stays id url c m stands =
    let next = suc (max_collection_id m.collections) in
    let fresh = new_id id m.collections stands.there in
    record {
      stands = record {
        there = is_collection-upsert_collection id url next c fresh m.collections ∙ stands.there;
        only = only-upsert_collection id url next c fresh m.collections ∙ stands.only;
      };
      objects_of = λ key. refl;
      token = token_at-upsert_collection id url next c fresh m.collections;
    }

record_found-Stays :
    (id : ℕ) (url : Text) (cfg : Config) (found : List Remote) (m : Shelf)
    → Stands id url m.collections
    → Stays id url m (record_found cfg found m)
unfolding record_found
record_found-Stays id url cfg [] m stands = unchanged id url m stands
record_found-Stays id url cfg (r ∷ found) m stands =
    let one = put_one (excluded cfg r.name) in
    carry_on id url m (put (excluded cfg r.name))
      (record_found cfg found (put (excluded cfg r.name))) one
      (record_found-Stays id url cfg found (put (excluded cfg r.name)) one.stands)
  where
    put : Bool → Shelf
    put b = if b then m else put_collection (recorded cfg r) m

    put_one : (b : Bool) → Stays id url m (put b)
    put_one true = unchanged id url m stands
    put_one false = put_collection-Stays id url (recorded cfg r) m stands

forget_collection-Stays :
    (id : ℕ) (url gone : Text) (m : Shelf)
    → text_eq gone url ≡ false
    → Stands id url m.collections
    → Stays id url m (forget_collection gone m)
unfolding forget_collection
forget_collection-Stays id url gone m ne stands = record {
  stands = record {
    there = is_collection-left id url gone ne m.collections stands.only ∙ stands.there;
    only = strays-left id url gone ne m.collections stands.only;
  };
  objects_of = λ key. rw (find_object-left id url gone ne key m.collections m.objects stands.only);
  token = token_at-left id url gone ne m.collections stands.only;
}

prune-Stays :
    (id : ℕ) (url : Text) (cfg : Config) (partial : Bool) (found : List Remote)
    (known : List Collection) (m : Shelf)
    → Stands id url m.collections
    → drops cfg partial found url known ≡ false
    → Stays id url m (prune cfg partial found known m)
unfolding prune
prune-Stays id url cfg partial found [] m stands h = unchanged id url m stands
prune-Stays id url cfg partial found (c ∷ known) m stands h =
    let b = is_dropped cfg partial found c in
    let one = prune_one b (ground (arith, h)) in
    carry_on id url m (pruned b) (prune cfg partial found known (pruned b)) one
      (prune-Stays id url cfg partial found known (pruned b) one.stands (ground (arith, h)))
  where
    pruned : Bool → Shelf
    pruned b = if b then forget_collection c.url m else m

    prune_one : (b : Bool) → (text_eq c.url url && b) ≡ false → Stays id url m (pruned b)
    prune_one true e = forget_collection-Stays id url c.url m (ground (arith, e)) stands
    prune_one false e = unchanged id url m stands

discover_found-Stays :
    (id : ℕ) (url : Text) (cfg : Config) (found : List Remote) (partial : Bool) (m : Shelf)
    → Stands id url m.collections
    → has_url url (discover_found cfg found partial m).collections ≡ true
    → Stays id url m (discover_found cfg found partial m)
unfolding discover_found
discover_found-Stays id url cfg found partial m stands h =
    let put = record_found cfg found m in
    let one = record_found-Stays id url cfg found m stands in
    carry_on id url m put (prune cfg partial found (collections [] put) put) one (
      prune-Stays id url cfg partial found (collections [] put) put one.stands
        (ground (arith, h, has_url-prune cfg partial found url (collections [] put) put)))

-- If a row of the Mirror has the id, all rows that have it are at the URL, and the URL is held after a
-- discovery, then the row is there, with the objects and the token that it had.
pub discover-Stays :
    (d : Driver) (cfg : Config) (m : Shelf) (id : ℕ) (url : Text)
    → Stands id url m.collections
    → has_url url (discover d cfg m).1.collections ≡ true
    → Stays id url m (discover d cfg m).1
unfolding discover
discover-Stays d cfg m id url stands h = by_failure (d.collections.1 && is_none d.collections.0) h
  where
    answer : Bool → Try (List Collection) × Shelf
    answer b =
        let end = discover_found cfg d.collections.0 d.collections.1 m in
        if b then (fail discover_failed, m) else (ok (collections [] end), end)

    by_failure :
        (b : Bool) → has_url url (answer b).1.collections ≡ true → Stays id url m (answer b).1
    by_failure true e = unchanged id url m stands
    by_failure false e = discover_found-Stays id url cfg d.collections.0 d.collections.1 m stands e
