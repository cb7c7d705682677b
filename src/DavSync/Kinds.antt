-- ===== src/DavSync/Kinds.antt =====
-- internal/sync/davsync/davsync.go, SyncKinds: every collection that can be synced is, whatever the
-- others do.
use mailbox_cli.Prelude.{
  ℕ, ◌≡◌, ◌≢◌, refl, ap, ◌∙◌, Bool, Option, none, List, [], ◌∷◌, ◌++◌, Text, arith, All,
}
use mailbox_cli.DavSync.Types.{Collection, Shelf, Change, Changes, Driver, Outcome, Try, ok, fail}
use mailbox_cli.DavSync.Store.{set_sync_token}
use mailbox_cli.DavSync.Reconciler.{
  missing, commit, commit_asked, sync_asked, sync, ask_changes, ask_missing,
}
use mailbox_cli.DavSync.Discover.{Synced, noted, sync_each, of_kinds, sync_kinds}
use mailbox_cli.DavSync.Held.{Version, held_at}
use mailbox_cli.DavSync.Server.{Honest}
use mailbox_cli.DavSync.Converges.{sync-IsCurrent, write_items-Apart, emptied, emptied_lem}

module _ (d : Driver) (c : Collection) (id : ℕ) (other : c.id ≢ id) (key : Text) where
  held_at-commit_asked :
      (full : Bool) (token : Text) (m : Shelf) (o : Try (List Change))
      → held_at id key (commit_asked d c full token m o).1 ≡ held_at id key m
  unfolding commit_asked commit set_sync_token
  held_at-commit_asked full token m (fail e) = refl
  held_at-commit_asked full token m (ok items) =
      (write_items-Apart d c id other items (emptied full c m, 0, 0)).objects_of key
      ∙ ground (arith, other, emptied_lem full c id key m)

  held_at-sync_asked :
      (m : Shelf) (o : Try (Bool × Changes))
      → held_at id key (sync_asked d c m o).1 ≡ held_at id key m
  unfolding sync_asked
  held_at-sync_asked m (fail e) = refl
  held_at-sync_asked m (ok (full, ch)) =
      held_at-commit_asked full ch.token m (ask_missing d c ch.items (missing ch.items))

  held_at-sync : (m : Shelf) → held_at id key (sync d c m).1 ≡ held_at id key m
  unfolding sync
  held_at-sync m = held_at-sync_asked m (ask_changes d c)

noted_shelf : (c : Collection) (r : Try Outcome × Shelf) (st : Synced) → (noted c r st).shelf ≡ r.1
unfolding noted
noted_shelf c (ok out, m) st = refl
noted_shelf c (fail e, m) st = refl

held_at-sync_each :
    (d : Driver) (id : ℕ) (key : Text) (cols : List Collection) (st : Synced)
    → All (λ c. c.id ≢ id) cols
    → held_at id key (sync_each d cols st).shelf ≡ held_at id key st.shelf
unfolding sync_each
held_at-sync_each d id key [] st h = refl
held_at-sync_each d id key (c ∷ cols) st (ne, more) =
    held_at-sync_each d id key cols (noted c (sync d c st.shelf) st) more
    ∙ ap (held_at id key) (noted_shelf c (sync d c st.shelf) st)
    ∙ held_at-sync d c id ne key st.shelf

sync_each-append :
    (d : Driver) (xs ys : List Collection) (st : Synced)
    → sync_each d (xs ++ ys) st ≡ sync_each d ys (sync_each d xs st)
unfolding sync_each
sync_each-append d [] ys st = refl
sync_each-append d (c ∷ xs) ys st = sync_each-append d xs ys (noted c (sync d c st.shelf) st)

-- A driver's answer is as honest to a Mirror that holds the same of the collection.
same_answers :
    (d : Driver) (c : Collection) (full : Bool) (ch : Changes) (at : Text → Option Version)
    (m m' : Shelf)
    → ((key : Text) → held_at c.id key m' ≡ held_at c.id key m)
    → Honest d c full ch at m
    → Honest d c full ch at m'
same_answers d c full ch at m m' same honest = record {
  answers = honest.answers;
  says = honest.says;
  complete = λ key h. rw (same key) (honest.complete key h);
  fetches = honest.fetches;
  texts = honest.texts;
}

-- If a collection is among those of the kinds named, has an id of its own there, and the driver
-- answers for it from one state, then after SyncKinds it holds what the server has, whether or not
-- the syncs of the others fail.
pub sync_kinds-IsCurrent :
    (d : Driver) (kinds : List Text) (m : Shelf) (before after : List Collection) (c : Collection)
    (full : Bool) (ch : Changes) (at : Text → Option Version)
    → of_kinds kinds m ≡ before ++ c ∷ after
    → All (λ x. x.id ≢ c.id) before
    → All (λ x. x.id ≢ c.id) after
    → Honest d c full ch at m
    → (key : Text) → held_at c.id key (sync_kinds d kinds m).shelf ≡ at key
unfolding sync_kinds sync_each
sync_kinds-IsCurrent d kinds m before after c full ch at split first last honest key =
    let start : Synced = record { outcomes = []; first = none; shelf = m } in
    let mid = sync_each d before start in
    let honest' =
      same_answers d c full ch at m mid.shelf (λ k. held_at-sync_each d c.id k before start first)
        honest in
    let (out, done, current) = sync-IsCurrent d c full ch at mid.shelf honest' in
    rw (split, sync_each-append d before (c ∷ after) start)
      (held_at-sync_each d c.id key after (noted c (sync d c mid.shelf) mid) last
        ∙ ap (held_at c.id key) (noted_shelf c (sync d c mid.shelf) mid)
        ∙ current.same key)
