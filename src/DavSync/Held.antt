-- ===== src/DavSync/Held.antt =====
-- internal/mirror/dav.go: what each write leaves at every collection and href.
use mailbox_cli.Prelude.{
  ℕ, suc, ◌≡◌, refl, ◌∙◌, inl, inr, ◌&&◌, not, Option, none, some, List, [], ◌∷◌, Text, codes,
  text_eq, text_eq_iff, arith, ◌==◌, if◌then◌else◌, select, Bool-cases,
}
use mailbox_cli.DavSync.Types.{Collection, Object, Shelf, Change, Driver, Contact, Projection}
use mailbox_cli.DavSync.Store.{
  href_key, is_at, max_object_id, upsert_object, put_object, delete_object, clear_collection,
  find_object,
}
use mailbox_cli.DavSync.Reconciler.{bare, with_card, with_calendar, project}

-- What is known of an object on either side: its tag and its text.
pub record Version : Type 0 where
  pub etag : Text
  pub text : Text

abbrev pub version_of : Option Object → Option Version
version_of none = none
version_of (some o) = some (record { etag = o.etag; text = o.raw })

-- The version that the Mirror holds at a collection and key.
abbrev pub held_at : ℕ → Text → Shelf → Option Version
held_at id key m = version_of (find_object id key m.objects)

find-upsert_object :
    (id : ℕ) (key : Text) (next : ℕ) (o : Object) (os : List Object)
    → version_of (find_object id key (upsert_object next o os)) ≡ (
        if is_at id key o
        then some (record { etag = o.etag; text = o.raw })
        else version_of (find_object id key os))
unfolding find_object upsert_object
find-upsert_object id key next o [] = ground arith
find-upsert_object id key next o (x ∷ os) = ground (
  arith,
  find-upsert_object id key next o os,
  text_eq_iff x.href o.href,
  text_eq_iff x.href key,
  text_eq_iff o.href key,
)

find-select_at :
    (id : ℕ) (key : Text) (i : ℕ) (k : Text) (os : List Object)
    → find_object id key (select (λ o. not (is_at i k o)) os)
      ≡ (if i == id && text_eq k key then none else find_object id key os)
unfolding find_object
find-select_at id key i k [] = ground arith
find-select_at id key i k (x ∷ os) = ground (
  arith,
  find-select_at id key i k os,
  text_eq_iff x.href k,
  text_eq_iff x.href key,
  text_eq_iff k key,
)

find-select_collection :
    (id : ℕ) (key : Text) (i : ℕ) (os : List Object)
    → find_object id key (select (λ o. not (o.collection_id == i)) os)
      ≡ (if i == id then none else find_object id key os)
unfolding find_object
find-select_collection id key i [] = ground arith
find-select_collection id key i (x ∷ os) = ground (arith, find-select_collection id key i os)

-- A projected object is the one that was sent, whatever the parsers say.
pub record IsSent (c : Collection) (it : Change) (o : Object) : Type 0 where
  pub on : o.collection_id ≡ c.id
  pub named : o.href ≡ it.href
  pub tagged : o.etag ≡ it.etag
  pub whole : o.raw ≡ it.text

with_card-IsSent :
    (c : Collection) (it : Change) (o : Option Contact) → IsSent c it (with_card (bare c it) o)
unfolding with_card bare
with_card-IsSent c it none = record { on = refl; named = refl; tagged = refl; whole = refl }
with_card-IsSent c it (some card) = record { on = refl; named = refl; tagged = refl; whole = refl }

with_calendar-IsSent :
    (c : Collection) (it : Change) (o : Option Projection)
    → IsSent c it (with_calendar (bare c it) o)
unfolding with_calendar bare
with_calendar-IsSent c it none = record { on = refl; named = refl; tagged = refl; whole = refl }
with_calendar-IsSent c it (some p) = record { on = refl; named = refl; tagged = refl; whole = refl }

pub project-IsSent : (d : Driver) (c : Collection) (it : Change) → IsSent c it (project d c it)
unfolding project
project-IsSent d c it = elim (Bool-cases (text_eq c.kind (codes "cards"))) [
  | inl e ↦ rw e (with_card-IsSent c it (d.parse_card it.text))
  | inr e ↦ rw e (with_calendar-IsSent c it (d.parse_calendar it.text))
]

pub held_at-put_object :
    (d : Driver) (c : Collection) (it : Change) (id : ℕ) (key : Text) (m : Shelf)
    → held_at id key (put_object d (project d c it) m) ≡ (
        if c.id == id && text_eq (href_key d it.href) key
        then some (record { etag = it.etag; text = it.text })
        else held_at id key m)
unfolding put_object
held_at-put_object d c it id key m =
    let o = project d c it in
    let sent = project-IsSent d c it in
    find-upsert_object id key (suc (max_object_id m.objects))
      (record o { href = href_key d o.href }) m.objects
    ∙ rw (sent.on, sent.named, sent.tagged, sent.whole)

pub held_at-delete_object :
    (d : Driver) (c : ℕ) (href : Text) (id : ℕ) (key : Text) (m : Shelf)
    → held_at id key (delete_object d c href m)
      ≡ (if c == id && text_eq (href_key d href) key then none else held_at id key m)
unfolding delete_object
held_at-delete_object d c href id key m =
    ground (arith, find-select_at id key c (href_key d href) m.objects)

pub held_at-clear_collection :
    (c id : ℕ) (key : Text) (m : Shelf)
    → held_at id key (clear_collection c m) ≡ (if c == id then none else held_at id key m)
unfolding clear_collection
held_at-clear_collection c id key m = ground (arith, find-select_collection id key c m.objects)
