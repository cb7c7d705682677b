-- ===== src/Outbox/Once.antt =====
-- What the courier of internal/outbox/courier.go does on its own: a mail that the submission server
-- accepted is handed over again only where the sending of it ended in an error.
use mailbox_cli.Prelude.{
  ℕ, suc, ◌≤◌, ◌<◌, ◌≡◌, refl, inl, inr, ◌⊎◌, Bool, true, false, ◌&&◌, Option, none, some, List, [],
  ◌∷◌, ◌++◌, map, Text, arith, ◌==◌, if◌then◌else◌,
}
use mailbox_cli.Outbox.Types.{queued, sending, Item, Row, Handed}
use mailbox_cli.Outbox.Store.{max_id}
use mailbox_cli.Outbox.Queue.{
  update, row_of, hold, as_sending, as_sent, as_filed, as_requeued, with_error,
}
use mailbox_cli.Outbox.Courier.{is_accepted, is_refused, handed_over}
use mailbox_cli.Outbox.Handover.{Handover}
use mailbox_cli.Outbox.Rows.{
  state_at, row_at, row_at-update, max_id-update, row_at-append, max_id-append, row_at-map,
  max_id-map, row_at-le-max_id,
}

-- How often the submission server accepted the mail of a row.
abbrev pub accepted : ℕ → List Handed → ℕ
accepted j [] = 0
accepted j (h ∷ log) = if h.accepted && h.id == j then suc (accepted j log) else accepted j log

-- How often the submission server accepted the mail of a row, and the sending ended in an error.
abbrev pub lost : ℕ → List Handed → ℕ
lost j [] = 0
lost j (h ∷ log) = if h.accepted && h.refused && h.id == j then suc (lost j log) else lost j log

-- The mail of row `j` was accepted at most once beyond the errors that hid it, only with such an error
-- while it is queued, and not at all if its id is still to be given.
pub record Once (j : ℕ) (rows : List Row) (log : List Handed) : Type 0 where
  pub once : accepted j log ≤ suc (lost j log)
  pub fresh : state_at j rows ≡ some queued → accepted j log ≤ lost j log
  pub known : max_id rows < j → accepted j log ≡ 0

-- A statement over one row that puts no accepted mail back in the queue.
pub update-Once :
    (j id : ℕ) (f : Row → Row) (rows : List Row) (log : List Handed)
    → ((r : Row) → (f r).id ≡ r.id)
    → ((r : Row)
        → (f r).state ≡ queued
        → (r.state ≡ queued) ⊎ (id ≡ j → accepted j log ≤ lost j log))
    → Once j rows log
    → Once j (update id f rows) log
update-Once j id f rows log same quiet h = settle (row_at j rows) refl
  where
    settle : (o : Option Row) → row_at j rows ≡ o → Once j (update id f rows) log
    settle none e = ground (arith, row_at-update f same j id rows, max_id-update f same id rows)
    settle (some r) e =
        ground (arith, row_at-update f same j id rows, max_id-update f same id rows, quiet r)

module _ (j : ℕ) where
  -- Row `id` is being handed over: it is in the table, it is not queued, and its mail was
  -- accepted before only with an error.
  abbrev Ready : ℕ → List Row → List Handed → Type 0
  Ready id rows log =
      Once j rows log
      × (state_at id rows ≡ some sending)
      × (id ≤ max_id rows)
      × (id ≡ j → accepted j log ≤ lost j log)

  -- The sending has ended: a mail with an error may be queued again.
  abbrev Answered : ℕ → Option Text → List Row → List Handed → Type 0
  Answered id answer rows log =
      Once j rows log × (is_refused answer ≡ true → id ≡ j → accepted j log ≤ lost j log)

  claim-Ready :
      (id now : ℕ) (rows : List Row) (log : List Handed) (r : Row)
      → Once j rows log
      → row_at id rows ≡ some r
      → r.state ≡ queued
      → Ready id (update id (as_sending now) rows) log
  claim-Ready id now rows log r h e q = (
    update-Once j id (as_sending now) rows log (λ x. refl) (λ x p. cc) h,
    ground (arith, row_at-update (as_sending now) (λ x. refl) id id rows),
    ground (arith, max_id-update (as_sending now) (λ x. refl) id rows, row_at-le-max_id id rows r),
    λ p. ground arith,
  )

  submit-Answered :
      (id : ℕ) (answer : Option Text) (taken : Bool) (rows : List Row) (log : List Handed)
      → Ready id rows log
      → Answered id answer rows (handed_over id answer taken ∷ log)
  unfolding is_accepted is_refused
  submit-Answered id none taken rows log (h, s, k, n) = ground (arith, h)
  submit-Answered id (some why) true rows log (h, s, k, n) = ground (arith, h)
  submit-Answered id (some why) false rows log (h, s, k, n) = ground (arith, h)

  hold-Once : (rows : List Row) (log : List Handed) → Once j rows log → Once j (map hold rows) log
  unfolding hold
  hold-Once rows log h =
      ground (
        arith,
        row_at-map hold (λ r. ground arith) j rows,
        max_id-map hold (λ r. ground arith) rows,
      )

  insert-Once :
      (it : Item) (now : ℕ) (rows : List Row) (log : List Handed)
      → Once j rows log
      → Once j (rows ++ row_of it (suc (max_id rows)) now ∷ []) log
  unfolding row_of row_at
  insert-Once it now rows log h = ground (
    arith,
    row_at-append j rows (row_of it (suc (max_id rows)) now ∷ []),
    max_id-append rows (row_of it (suc (max_id rows)) now),
    h,
  )

  pub Once-Handover : Handover (Once j) Ready Answered
  Once-Handover = record {
    ready_keeps = λ id rows log h. h.0;
    answered_keeps = λ id answer rows log h. h.0;
    claimed = claim-Ready;
    handed = submit-Answered;
    requeued = λ id refusal rows log h.
        update-Once j id (as_requeued (some refusal)) rows log (λ r. refl)
          (λ r q. inr (h.1 (unfold is_refused in refl))) h.0;
    recorded = λ id now rows log r h e q.
        update-Once j id (as_sent now) rows log (λ x. refl) (λ x p. cc) h;
    filed_away = λ id box uid now rows log h.
        update-Once j id (as_filed box uid now) rows log (λ x. refl) (λ x p. cc) h;
    noted = λ id cause rows log h.
        update-Once j id (with_error cause) rows log (λ x. refl) (λ x p. inl p) h;
    stopped = hold-Once;
    entered = insert-Once;
  }
