-- ===== src/DavSync/Written.antt =====
-- internal/sync/davsync/write.go: what a write leaves in the Mirror.
use mailbox_cli.Prelude.{
  ℕ, ◌≡◌, ◌≢◌, refl, ◌∙◌, true, false, ◌&&◌, Option, none, some, List, [], ◌∷◌, Text, sym, text_eq,
  text_eq_iff, text_eq_refl, arith, ◌==◌, if◌then◌else◌,
}
use mailbox_cli.DavSync.Types.{Collection, Object, Shelf, Change, Driver, not_found, Try, ok, ask}
use mailbox_cli.DavSync.Store.{href_key, put_object, object_by_href, find_object}
use mailbox_cli.DavSync.Reconciler.{project, is_empty}
use mailbox_cli.DavSync.Urls.{absolute}
use mailbox_cli.DavSync.Writer.{WriteDriver, read_one, settle, put_answered, put, delete}
use mailbox_cli.DavSync.Held.{
  Version, version_of, held_at, held_at-put_object, held_at-delete_object,
}
use mailbox_cli.DavSync.Converges.{is_collection}

-- What the writer knows of the object after the server took the put: with an ETag, that ETag and the
-- text that was sent; without one, what a multiget answers that found one object with a text, and
-- otherwise the text that was sent, without an ETag.
pub record IsLearnt (c : Collection) (href raw etag : Text) (after : Driver) (v : Version)
    : Type 0 where
  pub told : etag ≢ [] → v ≡ record { etag = etag; text = raw }
  pub found :
      etag ≡ []
      → (got : Change) → after.multi_get c.url (href ∷ []) ≡ some (got ∷ [])
      → got.text ≢ []
      → v ≡ record { etag = got.etag; text = got.text }
  pub not_found :
      etag ≡ []
      → ((got : Change) → after.multi_get c.url (href ∷ []) ≡ some (got ∷ []) → got.text ≡ [])
      → v ≡ record { etag = []; text = raw }

abbrev version : Change → Version
version it = record { etag = it.etag; text = it.text }

cons_ne : (x : ℕ) (t : Text) → x ∷ t ≢ []
cons_ne x t h = cc

-- What a multiget answers.
abbrev Answered : Type 0
Answered = Option (List Change)

-- What is kept of what a multiget answers.
read_one_lem :
    (href raw : Text) (o : Answered)
    → let it = read_one href (record { href = href; etag = []; text = raw; deleted = false }) o in
      (it.href ≡ href)
      × ((got : Change) → o ≡ some (got ∷ []) → got.text ≢ [] → version it ≡ version got)
      × (((got : Change) → o ≡ some (got ∷ []) → got.text ≡ [])
          → version it ≡ record { etag = []; text = raw })
unfolding read_one
read_one_lem href raw none = (refl, (λ got e. cc), λ h. refl)
read_one_lem href raw (some []) = (refl, (λ got e. cc), λ h. refl)
read_one_lem href raw (some (x ∷ y ∷ more)) = (refl, (λ got e. cc), λ h. refl)
read_one_lem href raw (some (x ∷ [])) = by_text x.text refl
  where
    sent : Change
    sent = record { href = href; etag = []; text = raw; deleted = false }

    by_text :
        (t : Text)
        → x.text ≡ t
        → let it = if is_empty t then sent else record x { href = href } in
          (it.href ≡ href)
          × ((got : Change)
              → some (x ∷ []) ≡ some (got ∷ [])
              → got.text ≢ []
              → version it ≡ version got)
          × (((got : Change) → some (x ∷ []) ≡ some (got ∷ []) → got.text ≡ [])
              → version it ≡ record { etag = []; text = raw })
    by_text [] e = (refl, (λ got q ne. absurd (ne cc)), λ h. refl)
    by_text (b ∷ t) e = (refl, (λ got q ne. cc), λ h. absurd (cons_ne b t (sym e ∙ h x refl)))

settle-IsLearnt :
    (c : Collection) (href raw etag : Text) (after : Driver)
    → let it = settle c href raw etag after in
      (it.href ≡ href) × IsLearnt c href raw etag after (version it)
unfolding settle
settle-IsLearnt c href raw [] after =
    let (same, found, unread) = read_one_lem href raw (after.multi_get c.url (href ∷ [])) in
    (
      same,
      record {
        told = λ ne. absurd (ne refl);
        found = λ e got q ne. found got q ne;
        not_found = λ e h. unread h;
      },
    )
settle-IsLearnt c href raw (x ∷ etag) after = (
  refl,
  record {
    told = λ ne. refl;
    found = λ e. absurd (cons_ne x etag e);
    not_found = λ e. absurd (cons_ne x etag e);
  },
)

-- An object that is found among the joined rows.
object_by_href-held :
    (d : Driver) (id : ℕ) (href : Text) (m : Shelf) (v : Version)
    → is_collection id m.collections ≡ true
    → held_at id (href_key d href) m ≡ some v
    → (o : Object) × (object_by_href d id href m ≡ some o) × (o.etag ≡ v.etag) × (o.raw ≡ v.text)
unfolding object_by_href
object_by_href-held d id href m v known h =
    rw known (found (find_object id (href_key d href) m.objects) h)
  where
    found :
        (x : Option Object)
        → version_of x ≡ some v
        → (o : Object) × (x ≡ some o) × (o.etag ≡ v.etag) × (o.raw ≡ v.text)
    found none e = ground (arith, e)
    found (some o) e = (o, refl, cc, cc)

-- What a put leaves: the version of the object at its key, and every other as it was.
pub record IsPut (w : WriteDriver) (c : Collection) (href : Text) (v : Version) (m : Shelf)
    (r : Try Object × Shelf) : Type 0 where
  pub held :
      (id : ℕ) (key : Text)
      → held_at id key r.1
        ≡ (if c.id == id && text_eq (href_key w.reads href) key then some v else held_at id key m)
  pub answer : (o : Object) × (r.0 ≡ ok o) × (o.etag ≡ v.etag) × (o.raw ≡ v.text)

rows-put_object :
    (d : Driver) (o : Object) (m : Shelf) → (put_object d o m).collections ≡ m.collections
unfolding put_object
rows-put_object d o m = refl

read_back-IsPut :
    (w : WriteDriver) (c : Collection) (href : Text) (m : Shelf) (it : Change)
    → is_collection c.id m.collections ≡ true
    → it.href ≡ href
    → let end = put_object w.reads (project w.reads c it) m in
      IsPut w c href (version it) m (ask not_found (object_by_href w.reads c.id href end), end)
read_back-IsPut w c href m it known e =
    let end = put_object w.reads (project w.reads c it) m in
    let held : (id : ℕ) (key : Text)
        → held_at id key end ≡ (
            if c.id == id && text_eq (href_key w.reads href) key
            then some (version it)
            else held_at id key m) =
      λ id key. held_at-put_object w.reads c it id key m ∙ rw e refl in
    let (o, got, tag, text) =
      object_by_href-held w.reads c.id href end (version it)
        (rw (rows-put_object w.reads (project w.reads c it) m) known)
        (held c.id (href_key w.reads href)
          ∙ ground (arith, text_eq_refl (href_key w.reads href))) in
    record { held = held; answer = (o, rw got refl, tag, text) }

-- If the Mirror has the collection and the server takes a put, then the Mirror holds at the key of the
-- object the version that the writer learnt (with an ETag, that and the text that was sent; without one,
-- what a multiget answers that found one object with a text, and otherwise the text that was sent), every
-- other object is as it was, and the answer is the object that is held.
pub put-IsPut :
    (w : WriteDriver) (c : Collection) (href raw if_match etag : Text) (after : Driver) (m : Shelf)
    → w.put (absolute c href) raw if_match ≡ some (etag, after)
    → is_collection c.id m.collections ≡ true
    → (v : Version) × IsLearnt c href raw etag after v
      × IsPut w c href v m (put w c href raw if_match m)
unfolding put put_answered
put-IsPut w c href raw if_match etag after m answers known =
    let it = settle c href raw etag after in
    let (same, learnt) = settle-IsLearnt c href raw etag after in
    (version it, learnt, rw answers (read_back-IsPut w c href m it known same))

-- If the server takes a put of an object that is not held, and then its deletion, every object is held
-- as it was before.
pub delete-put :
    (w : WriteDriver) (c : Collection) (href raw if_match etag : Text) (after : Driver) (m : Shelf)
    (o : Object)
    → w.put (absolute c href) raw if_match ≡ some (etag, after)
    → is_collection c.id m.collections ≡ true
    → held_at c.id (href_key w.reads href) m ≡ none
    → o.href ≡ href
    → w.delete (absolute c href) o.etag ≡ true
    → (id : ℕ) (key : Text)
    → held_at id key (delete w c o (put w c href raw if_match m).1).1 ≡ held_at id key m
unfolding delete
delete-put w c href raw if_match etag after m o answers known none_held at_href deleted id key =
    let end = (put w c href raw if_match m).1 in
    let (v, learnt, is_put) = put-IsPut w c href raw if_match etag after m answers known in
    rw (at_href, deleted)
      (held_at-delete_object w.reads c.id href id key end
        ∙ ground (arith, is_put.held id key, text_eq_iff (href_key w.reads href) key, here))
  where
    here : c.id ≡ id → href_key w.reads href ≡ key → held_at id key m ≡ none
    here e f = rw (← e, ← f) none_held
