-- ===== src/DavSync/Store.antt =====
-- internal/mirror/dav.go and forget.go: the reads and writes of the tables of collections and objects.
use mailbox_cli.Prelude.{
  ℕ, suc, max, Bool, ◌&&◌, ◌||◌, not, Option, none, some, List, [], ◌∷◌, Text, text_ltb, text_eq,
  trim, ◌==◌, if◌then◌else◌, select, any_of,
}
use mailbox_cli.DavSync.Types.{Collection, Object, Shelf, Driver}

abbrev pub text_or : Text → Option Text → Text
text_or t none = t
text_or t (some p) = p

-- hrefKey: the path of an href, by which the Mirror names an object.
unfoldable pub href_key : Driver → Text → Text
href_key d href = text_or href (d.url_path (trim href))

unfoldable pub max_collection_id : List Collection → ℕ
max_collection_id [] = 0
max_collection_id (c ∷ cs) = max c.id (max_collection_id cs)

unfoldable pub max_object_id : List Object → ℕ
max_object_id [] = 0
max_object_id (o ∷ os) = max o.id (max_object_id os)

-- ON CONFLICT (account, url) the kind, the name and the colour are those of the new row.
unfoldable pub upsert_collection : ℕ → Collection → List Collection → List Collection
upsert_collection next c [] = record c { id = next; sync_token = [] } ∷ []
upsert_collection next c (x ∷ xs) =
    let rest = upsert_collection next c xs in
    if text_eq x.url c.url
    then record x { kind = c.kind; name = c.name; color = c.color } ∷ xs
    else x ∷ rest

unfoldable pub put_collection : Collection → Shelf → Shelf
put_collection c m = record m {
  collections = upsert_collection (suc (max_collection_id m.collections)) c m.collections;
}

-- ORDER BY kind, name
unfoldable pub comes_before : Collection → Collection → Bool
comes_before a b = text_ltb a.kind b.kind || (text_eq a.kind b.kind && text_ltb a.name b.name)

unfoldable pub insert_collection : Collection → List Collection → List Collection
insert_collection c [] = c ∷ []
insert_collection c (x ∷ xs) =
    let rest = insert_collection c xs in if comes_before x c then x ∷ rest else c ∷ x ∷ xs

unfoldable pub sort_collections : List Collection → List Collection
sort_collections [] = []
sort_collections (c ∷ cs) = insert_collection c (sort_collections cs)

-- Collections, of every kind where none is named
unfoldable pub collections : Text → Shelf → List Collection
collections [] m = sort_collections m.collections
collections (c ∷ cs) m = sort_collections (select (λ x. text_eq x.kind (c ∷ cs)) m.collections)

unfoldable pub with_token : ℕ → Text → List Collection → List Collection
with_token id token [] = []
with_token id token (c ∷ cs) =
    (if c.id == id then record c { sync_token = token } else c) ∷ with_token id token cs

unfoldable pub set_sync_token : ℕ → Text → Shelf → Shelf
set_sync_token id token m = record m { collections = with_token id token m.collections }

-- WHERE collection_id = ? AND href = ?
abbrev pub is_at : ℕ → Text → Object → Bool
is_at id key o = o.collection_id == id && text_eq o.href key

-- ON CONFLICT (collection_id, href) every other column but the id is that of the new row.
unfoldable pub upsert_object : ℕ → Object → List Object → List Object
upsert_object next o [] = record o { id = next } ∷ []
upsert_object next o (x ∷ xs) =
    let rest = upsert_object next o xs in
    if is_at o.collection_id o.href x then record o { id = x.id } ∷ xs else x ∷ rest

unfoldable pub put_object : Driver → Object → Shelf → Shelf
put_object d o m = record m {
  objects =
      upsert_object (suc (max_object_id m.objects)) (record o { href = href_key d o.href })
        m.objects;
}

unfoldable pub delete_object : Driver → ℕ → Text → Shelf → Shelf
delete_object d id href m = record m {
  objects = select (λ o. not (is_at id (href_key d href) o)) m.objects;
}

unfoldable pub clear_collection : ℕ → Shelf → Shelf
clear_collection id m = record m { objects = select (λ o. not (o.collection_id == id)) m.objects }

unfoldable pub find_object : ℕ → Text → List Object → Option Object
find_object id key [] = none
find_object id key (o ∷ os) =
    let rest = find_object id key os in if is_at id key o then some o else rest

-- The objects are joined to their collections.
unfoldable pub object_by_href : Driver → ℕ → Text → Shelf → Option Object
object_by_href d id href m =
    if any_of (λ c. c.id == id) m.collections
    then find_object id (href_key d href) m.objects
    else none

abbrev pub has_url : Text → List Collection → Bool
has_url url = any_of (λ c. text_eq c.url url)

-- The collection that an object is on has the URL.
unfoldable pub is_on : Text → List Collection → Object → Bool
is_on url cs o = any_of (λ c. text_eq c.url url && c.id == o.collection_id) cs

unfoldable pub forget_collection : Text → Shelf → Shelf
forget_collection url m = record {
  objects = select (λ o. not (is_on url m.collections o)) m.objects;
  collections = select (λ c. not (text_eq c.url url)) m.collections;
}
