-- ===== src/DavSync/Converges.antt =====
-- internal/sync/davsync/davsync.go, Sync: a sync brings a collection of the Mirror to what the server
-- has.
use mailbox_cli.Prelude.{
  ℕ, ◌≡◌, ◌≢◌, refl, sym, ◌∙◌, Bool, true, false, ◌&&◌, Option, none, some, List, [], ◌∷◌, Text,
  text_eq, text_eq_iff, arith, ◌==◌, if◌then◌else◌, any_of,
}
use mailbox_cli.DavSync.Types.{Collection, Shelf, Change, Changes, Driver, Outcome, ok}
use mailbox_cli.DavSync.Store.{
  href_key, clear_collection, set_sync_token, with_token, put_object, delete_object,
}
use mailbox_cli.DavSync.Reconciler.{write_item, write_items, commit, commit_asked, sync_asked, sync}
use mailbox_cli.DavSync.Held.{
  Version, held_at, held_at-put_object, held_at-delete_object, held_at-clear_collection,
}
use mailbox_cli.DavSync.Server.{Honest, HasText, is_touched}
use mailbox_cli.DavSync.Filled.{Carries, AllCarry, ask_missing-AllCarry}

-- One item that carries what the server has.
held_at-write_item :
    (d : Driver) (c : Collection) (it : Change) (v : Option Version) (id : ℕ) (key : Text)
    (st : Shelf × ℕ × ℕ)
    → Carries it v
    → HasText v
    → held_at id key (write_item d c it st).0
      ≡ (if c.id == id && text_eq (href_key d it.href) key then v else held_at id key st.0)
unfolding write_item
held_at-write_item d c it none id key (m, changed, gone) carries texts =
    ground (arith, carries, held_at-delete_object d c.id it.href id key m)
held_at-write_item d c it (some v) id key (m, changed, gone) carries texts =
    ground (arith, carries, texts, text_eq_iff it.text [], held_at-put_object d c it id key m)

module _ (d : Driver) (c : Collection) (at : Text → Option Version)
    (texts : (key : Text) → HasText (at key)) where
  held_at-write_items :
      (items : List Change) (key : Text) (st : Shelf × ℕ × ℕ)
      → AllCarry d at items
      → held_at c.id key (write_items d c items st).0
        ≡ (if is_touched d key items then at key else held_at c.id key st.0)
  unfolding write_items
  held_at-write_items [] key st carries = ground arith
  held_at-write_items (it ∷ items) key st (carries, more) =
      held_at-write_items items key (write_item d c it st) more
      ∙ ground (
        arith,
        held_at-write_item d c it (at (href_key d it.href)) c.id key st carries
            (texts (href_key d it.href)),
        text_eq_iff (href_key d it.href) key,
        same (href_key d it.href) key,
      )
    where
      same : (a b : Text) → a ≡ b → at a ≡ at b
      same a b e = rw e

-- The token that a collection has.
abbrev pub token_at : ℕ → List Collection → Option Text
token_at id [] = none
token_at id (c ∷ cs) = let rest = token_at id cs in if c.id == id then some c.sync_token else rest

abbrev pub is_collection : ℕ → List Collection → Bool
is_collection id = any_of (λ c. c.id == id)

pub token_at-with_token :
    (id : ℕ) (token : Text) (cs : List Collection)
    → token_at id (with_token id token cs) ≡ (if is_collection id cs then some token else none)
unfolding with_token
token_at-with_token id token [] = ground arith
token_at-with_token id token (c ∷ cs) = ground (arith, token_at-with_token id token cs)

-- What a write of one collection leaves of the others: every object.
pub record Apart (id : ℕ) (m m' : Shelf) : Type 0 where
  pub objects_of : (key : Text) → held_at id key m' ≡ held_at id key m
  pub rows : m'.collections ≡ m.collections

module _ (d : Driver) (c : Collection) (id : ℕ) (other : c.id ≢ id) where
  write_item-Apart : (it : Change) (st : Shelf × ℕ × ℕ) → Apart id st.0 (write_item d c it st).0
  unfolding write_item put_object delete_object
  write_item-Apart it (m, changed, gone) = record {
    objects_of = λ key. ground (
      arith,
      other,
      held_at-delete_object d c.id it.href id key m,
      held_at-put_object d c it id key m,
    );
    rows = ground arith;
  }

  pub write_items-Apart :
      (items : List Change) (st : Shelf × ℕ × ℕ) → Apart id st.0 (write_items d c items st).0
  unfolding write_items
  write_items-Apart [] st = record { objects_of = λ key. refl; rows = refl }
  write_items-Apart (it ∷ items) st =
      let one = write_item-Apart it st in
      let rest = write_items-Apart items (write_item d c it st) in
      record {
        objects_of = λ key. rest.objects_of key ∙ one.objects_of key;
        rows = rest.rows ∙ one.rows;
      }

-- What a sync leaves: the collection holds what the server has, with the token that it answered
-- with, and every other collection holds what it held.
pub record IsCurrent (c : Collection) (token : Text) (at : Text → Option Version) (m m' : Shelf)
    : Type 0 where
  pub same : (key : Text) → held_at c.id key m' ≡ at key
  pub others : (id : ℕ) (key : Text) → c.id ≢ id → held_at id key m' ≡ held_at id key m
  pub covered : is_collection c.id m.collections ≡ true → token_at c.id m'.collections ≡ some token

rows-write_item :
    (d : Driver) (c : Collection) (it : Change) (st : Shelf × ℕ × ℕ)
    → (write_item d c it st).0.collections ≡ st.0.collections
unfolding write_item put_object delete_object
rows-write_item d c it (m, changed, gone) = ground arith

rows-write_items :
    (d : Driver) (c : Collection) (items : List Change) (st : Shelf × ℕ × ℕ)
    → (write_items d c items st).0.collections ≡ st.0.collections
unfolding write_items
rows-write_items d c [] st = refl
rows-write_items d c (it ∷ items) st =
    rows-write_items d c items (write_item d c it st) ∙ rows-write_item d c it st

abbrev pub emptied : Bool → Collection → Shelf → Shelf
emptied full c m = if full then clear_collection c.id m else m

pub emptied_lem :
    (full : Bool) (c : Collection) (id : ℕ) (key : Text) (m : Shelf)
    → held_at id key (emptied full c m) ≡ (if full && c.id == id then none else held_at id key m)
emptied_lem true c id key m = held_at-clear_collection c.id id key m
emptied_lem false c id key m = refl

rows-emptied :
    (full : Bool) (c : Collection) (m : Shelf) → (emptied full c m).collections ≡ m.collections
unfolding clear_collection
rows-emptied true c m = refl
rows-emptied false c m = refl

commit-IsCurrent :
    (d : Driver) (c : Collection) (full : Bool) (token : Text) (items : List Change)
    (at : Text → Option Version) (m : Shelf)
    → ((key : Text) → HasText (at key))
    → AllCarry d at items
    → ((key : Text)
        → is_touched d key items ≡ false
        → at key ≡ (if full then none else held_at c.id key m))
    → IsCurrent c token at m (commit d c full token items m).1
unfolding commit set_sync_token
commit-IsCurrent d c full token items at m texts carries complete =
    let start = emptied full c m in
    record {
      same = λ key.
          held_at-write_items d c at texts items key (start, 0, 0) carries
          ∙ ground (arith, emptied_lem full c c.id key m, complete key);
      others = λ id key ne.
          (write_items-Apart d c id ne items (start, 0, 0)).objects_of key
          ∙ ground (arith, emptied_lem full c id key m, ne);
      covered = λ h.
          token_at-with_token c.id token (write_items d c items (start, 0, 0)).0.collections
          ∙ rw (rows-write_items d c items (start, 0, 0), rows-emptied full c m, h);
    }

-- If the driver answers from one state of the collection, then a sync succeeds: the collection holds
-- at every key what the server has there, every other collection what it held, and a collection that
-- the Mirror has gets the token of the answer.
pub sync-IsCurrent :
    (d : Driver) (c : Collection) (full : Bool) (ch : Changes) (at : Text → Option Version)
    (m : Shelf)
    → Honest d c full ch at m
    → (out : Outcome) × ((sync d c m).0 ≡ ok out) × IsCurrent c ch.token at m (sync d c m).1
unfolding sync sync_asked commit_asked
sync-IsCurrent d c full ch at m honest =
    let (done, asked, carries, touched) =
      ask_missing-AllCarry d at c ch.items honest.fetches honest.says in
    let end = commit d c full ch.token done m in
    rw (honest.answers, asked)
      (
        end.0,
        refl,
        commit-IsCurrent d c full ch.token done at m honest.texts carries
            (λ key h. honest.complete key (sym (touched key) ∙ h)),
      )
