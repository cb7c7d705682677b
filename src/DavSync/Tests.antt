-- ===== src/DavSync/Tests.antt =====
-- Runs of internal/sync/davsync.
use mailbox_cli.Prelude.{
  ◌≡◌, refl, inl, inr, Bool-cases, true, false, some, Text, codes, text_eq, arith, All,
}
use mailbox_cli.DavSync.Types.{Outcome, ok}
use mailbox_cli.DavSync.Store.{href_key, find_object}
use mailbox_cli.DavSync.Reconciler.{bare, sync, ask_changes, is_named}
use mailbox_cli.DavSync.Held.{held_at}
use mailbox_cli.DavSync.Server.{Honest, is_touched, HasText}
use mailbox_cli.DavSync.Converges.{is_collection, token_at, IsCurrent, sync-IsCurrent}
use mailbox_cli.DavSync.Unsent.{unsent_is_covered}
use mailbox_cli.DavSync.Fixtures.{events, held, moved, has, sound, unsent, lossy}

has_complete :
    (key : Text) → is_touched sound key moved.items ≡ false → has key ≡ held_at 1 key held
unfolding href_key find_object bare
has_complete key h = ground (arith, h)

has_texts : (key : Text) → HasText (has key)
has_texts key = elim (Bool-cases (text_eq (codes "a") key)) [
  | inl e ↦ rw e (λ h. ground (arith, h))
  | inr e ↦ elim (Bool-cases (text_eq (codes "c") key)) [
    | inl f ↦ rw (e, f) (λ h. ground (arith, h))
    | inr f ↦ rw (e, f) tt
  ]
]

pub sound-Honest : Honest sound events false moved has held
unfolding href_key ask_changes
sound-Honest = record {
  answers = refl;
  says = (refl, (refl, (refl, tt)));
  complete = has_complete;
  fetches = λ hrefs. refl;
  texts = has_texts;
}

sync-IsCurrent_example :
    (out : Outcome) × ((sync sound events held).0 ≡ ok out)
    × IsCurrent events (codes "t2") has held (sync sound events held).1
sync-IsCurrent_example = sync-IsCurrent sound events false moved has held sound-Honest

lossy_answers : ask_changes lossy events ≡ ok (false, unsent)
unfolding ask_changes
lossy_answers = refl

lossy_named : All (λ it. is_named it ≡ true) unsent.items
lossy_named = (refl, tt)

unsent_is_covered_example :
    (out : Outcome) × ((sync lossy events held).0 ≡ ok out)
    × ((sync lossy events held).1.objects ≡ held.objects)
    × (is_collection 1 held.collections ≡ true
        → token_at 1 (sync lossy events held).1.collections ≡ some (codes "t2"))
unsent_is_covered_example =
    unsent_is_covered lossy events unsent held lossy_answers lossy_named refl
