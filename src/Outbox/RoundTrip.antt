-- ===== src/Outbox/RoundTrip.antt =====
-- internal/outbox/outbox.go, Enqueue and Get: what is queued is what is read back.
use mailbox_cli.Prelude.{
  ℕ, suc, ◌≡◌, refl, inl, inr, ◌∙◌, ap, Bool, false, Option, none, some, List, [], ◌∷◌, ◌++◌, map,
  Text, codes, arith, ◌==◌, ==_refl, if◌then◌else◌, select, select-append, All, join, fields,
}
use mailbox_cli.Prelude.Words.{IsWord, fields-join}
use mailbox_cli.Outbox.Types.{queued, Item, Row, World}
use mailbox_cli.Outbox.Store.{ok, query, insert, now, scan, max_id}
use mailbox_cli.Outbox.Queue.{enqueue, get, first, row_of}

-- The mail as the queue holds it: numbered, queued, never tried, and created now.
abbrev pub as_queued : Item → ℕ → ℕ → Item
as_queued it id now = record it {
  id = id;
  state = queued;
  attempts = 0;
  last_error = [];
  created_at = now;
  sent_at = none;
  filed_at = none;
  box = [];
  uid = 0;
}

scan-row_of :
    (it : Item) (id now : ℕ)
    → All IsWord it.recipients
    → scan (row_of it id now) ≡ as_queued it id now
unfolding scan row_of
scan-row_of it id now h = rw (fields-join it.recipients h)

-- No row has the id after the largest.
no_row :
    (rows : List Row) (j : ℕ)
    → mailbox_cli.Prelude.◌<◌ (max_id rows) j
    → select (λ r. r.id == j) rows ≡ []
unfolding max_id
no_row [] j h = refl
no_row (r ∷ rows) j h = ground (arith, no_row rows j)

select_new :
    (rows : List Row) (r : Row)
    → r.id ≡ suc (max_id rows)
    → select (λ x. x.id == suc (max_id rows)) (rows ++ r ∷ []) ≡ r ∷ []
select_new rows r e =
    select-append (λ (x : Row). x.id == suc (max_id rows)) rows (r ∷ [])
    ∙ rw (no_row rows (suc (max_id rows)) (omega arith), e, ==_refl (suc (max_id rows)))

-- If no statement fails and each recipient is a word, then Get with the id that Enqueue returned
-- reads back the mail as it was queued: with that id, in state queued, never tried, created at the
-- time of the insertion, and with the same account, Message-ID, sender, recipients, subject, text
-- and time before which it is not sent.
pub get-enqueue :
    (w : World) (it : Item)
    → ((n : ℕ) → w.env.fails n ≡ false)
    → All IsWord it.recipients
    → let id = suc (max_id w.rows) in
      ((enqueue it w).0 ≡ ok id) × ((get id (enqueue it w).1).0 ≡ ok (as_queued it id (now w)))
unfolding enqueue get first insert query
get-enqueue w it sound h =
    let e = select_new w.rows (row_of it (suc (max_id w.rows)) (now w)) (unfold row_of in refl) in
    let s = scan-row_of it (suc (max_id w.rows)) (now w) h in
    (
      ground (arith, sound w.statements),
      ground (arith, sound w.statements, sound (suc w.statements), e, s),
    )
