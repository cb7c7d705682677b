-- ===== src/Outbox/Settled.antt =====
-- A mail that was sent stays in the queue as sent or filed and is not handed over again, whatever
-- is run on the queue of internal/outbox.
use mailbox_cli.Prelude.{
  ℕ, suc, ◌≡◌, ◌≢◌, refl, ap, Bool, true, false, ◌||◌, Option, none, some, List, [], ◌∷◌, ◌++◌, map,
  arith, ◌==◌, if◌then◌else◌,
}
use mailbox_cli.Outbox.Types.{State, queued, sent, filed, held, state_eq, Item, Row, Handed}
use mailbox_cli.Outbox.Store.{scan, max_id}
use mailbox_cli.Outbox.Queue.{
  update, delete, row_of, hold, as_sending, as_sent, as_filed, as_requeued, with_error, as_retried,
  retry, cancel, get,
}
use mailbox_cli.Outbox.Handover.{Handover, Keeps}
use mailbox_cli.Outbox.Runs.{Runs-get, Runs-bind, Runs-if, Runs-raise, Runs-exec, Runs-move}
use mailbox_cli.Outbox.Rows.{
  state_at, row_at, row_at-update, row_at-append, row_at-map, row_at-delete,
}

-- How often the mail of a row was handed to the submission server.
abbrev pub handovers : ℕ → List Handed → ℕ
handovers j [] = 0
handovers j (h ∷ log) = if h.id == j then suc (handovers j log) else handovers j log

abbrev pub is_done : Option State → Bool
is_done none = false
is_done (some s) = state_eq s sent || state_eq s filed

-- Row `j` is sent or filed, and its mail was handed over `n` times.
pub record Settled (j n : ℕ) (rows : List Row) (log : List Handed) : Type 0 where
  pub done : is_done (state_at j rows) ≡ true
  pub count : handovers j log ≡ n

-- A statement over one row that leaves what is sent sent or filed.
update-Settled :
    (j n id : ℕ) (f : Row → Row) (rows : List Row) (log : List Handed)
    → ((r : Row) → (f r).id ≡ r.id)
    → ((r : Row)
        → row_at id rows ≡ some r
        → is_done (some r.state) ≡ true
        → is_done (some (f r).state) ≡ true)
    → Settled j n rows log
    → Settled j n (update id f rows) log
update-Settled j n id f rows log same quiet h = settle (row_at j rows) refl
  where
    settle : (o : Option Row) → row_at j rows ≡ o → Settled j n (update id f rows) log
    settle none e = ground (arith, row_at-update f same j id rows)
    settle (some r) e = ground (arith, row_at-update f same j id rows, quiet r)

module _ (j n : ℕ) where
  -- Another row is being handed over.
  abbrev Other : ℕ → List Row → List Handed → Type 0
  Other id rows log = Settled j n rows log × (id ≢ j)

  hold-Settled :
      (rows : List Row) (log : List Handed) → Settled j n rows log → Settled j n (map hold rows) log
  unfolding hold
  hold-Settled rows log h = ground (arith, row_at-map hold (λ r. ground arith) j rows)

  insert-Settled :
      (it : Item) (now : ℕ) (rows : List Row) (log : List Handed)
      → Settled j n rows log
      → Settled j n (rows ++ row_of it (suc (max_id rows)) now ∷ []) log
  insert-Settled it now rows log h =
      ground (arith, row_at-append j rows (row_of it (suc (max_id rows)) now ∷ []))

  pub Settled-Handover : Handover (Settled j n) Other (λ id answer. Other id)
  Settled-Handover = record {
    ready_keeps = λ id rows log h. h.0;
    answered_keeps = λ id answer rows log h. h.0;
    claimed = λ id now rows log r h e q. (
      update-Settled j n id (as_sending now) rows log (λ x. refl) (λ x p d. ground arith) h,
      λ same. ground arith,
    );
    handed = λ id answer taken rows log h. ground arith;
    requeued = λ id refusal rows log h.
        ground (arith, row_at-update (as_requeued (some refusal)) (λ x. refl) j id rows);
    recorded = λ id now rows log r h e q.
        update-Settled j n id (as_sent now) rows log (λ x. refl) (λ x p d. refl) h;
    filed_away = λ id box uid now rows log h.
        update-Settled j n id (as_filed box uid now) rows log (λ x. refl) (λ x p d. refl) h;
    noted = λ id cause rows log h.
        update-Settled j n id (with_error cause) rows log (λ x. refl) (λ x p d. d) h;
    stopped = hold-Settled;
    entered = insert-Settled;
  }

  pub retry-Keeps : (id : ℕ) → Keeps Settled-Handover (retry id)
  unfolding retry
  retry-Keeps id =
      Runs-move id (held ∷ queued ∷ []) as_retried (λ rows log h. h)
        λ now rows log r h e q.
          update-Settled j n id (as_retried now) rows log (λ x. refl) (λ x p d. ground arith) h

  delete-Settled :
      (id : ℕ) (it : Item) (rows : List Row) (log : List Handed)
      → (state_eq it.state sent || state_eq it.state filed) ≡ false
      → Settled j n rows log
      → (r : Row) → row_at id rows ≡ some r
      → it.state ≡ r.state
      → Settled j n (delete id rows) log
  delete-Settled id it rows log u h r e q = ground (arith, row_at-delete j id rows)

  pub cancel-Keeps : (id : ℕ) → Keeps Settled-Handover (cancel id)
  unfolding cancel scan
  cancel-Keeps id = Runs-bind _ (get id) _ (Runs-get (Settled j n) id) λ it.
      Runs-if (state_eq it.state sent || state_eq it.state filed) _ _
        (λ _. Runs-raise _ (λ rows log h. h.0))
        (λ open_state.
          Runs-exec _ (λ rows log h. h.0)
            λ now rows log h.
              delete-Settled id it rows log open_state h.0 (h.1).0 (h.1).1
                (ap (λ (i : Item). i.state) (h.1).2))
