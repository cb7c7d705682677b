-- ===== src/DavSync/Unsent.antt =====
-- internal/sync/davsync/davsync.go, Sync: objects that a multiget does not find.
use mailbox_cli.Prelude.{ℕ, ◌≡◌, refl, ap, ◌∙◌, true, false, some, List, [], ◌∷◌, Text, arith, All}
use mailbox_cli.DavSync.Types.{Collection, Shelf, Change, Changes, Driver, Outcome, ok}
use mailbox_cli.DavSync.Store.{set_sync_token}
use mailbox_cli.DavSync.Reconciler.{
  is_named, missing, find_change, fill, ask_missing, write_item, write_items, commit, commit_asked,
  sync_asked, sync, ask_changes,
}
use mailbox_cli.DavSync.Converges.{is_collection, token_at, token_at-with_token}

fill_nothing : (items : List Change) → fill [] items ≡ items
unfolding fill find_change
fill_nothing [] = refl
fill_nothing (it ∷ items) = ap (◌∷◌ it) (fill_nothing items)

ask_nothing :
    (d : Driver) (c : Collection) (items : List Change) (hrefs : List Text)
    → d.multi_get c.url hrefs ≡ some []
    → ask_missing d c items hrefs ≡ ok items
unfolding ask_missing
ask_nothing d c items [] h = refl
ask_nothing d c items (href ∷ hrefs) h = rw (h, fill_nothing items) refl

write_unsent :
    (d : Driver) (c : Collection) (items : List Change) (st : Shelf × ℕ × ℕ)
    → All (λ it. is_named it ≡ true) items
    → write_items d c items st ≡ st
unfolding write_items write_item
write_unsent d c [] st named = refl
write_unsent d c (it ∷ items) (m, changed, gone) (named, more) =
    ground (arith, named, write_unsent d c items (m, changed, gone) more)

-- If the items of a sync from a token are all named without their text, and the multiget answers with
-- no object, then the sync succeeds, no object of the Mirror changes, and a collection that the Mirror
-- has gets the new token.
pub unsent_is_covered :
    (d : Driver) (c : Collection) (ch : Changes) (m : Shelf)
    → ask_changes d c ≡ ok (false, ch)
    → All (λ it. is_named it ≡ true) ch.items
    → d.multi_get c.url (missing ch.items) ≡ some []
    → (out : Outcome) × ((sync d c m).0 ≡ ok out)
      × ((sync d c m).1.objects ≡ m.objects)
      × (is_collection c.id m.collections ≡ true
          → token_at c.id (sync d c m).1.collections ≡ some ch.token)
unfolding sync sync_asked commit_asked commit set_sync_token
unsent_is_covered d c ch m answers named lost =
    rw
      (
        answers,
        ask_nothing d c ch.items (missing ch.items) lost,
        write_unsent d c ch.items (m, 0, 0) named,
      )
      (
        (commit d c false ch.token ch.items m).0,
        rw (write_unsent d c ch.items (m, 0, 0) named) refl,
        refl,
        λ h. token_at-with_token c.id ch.token m.collections ∙ rw h refl,
      )
