-- ===== src/Outbox/Handover.antt =====
-- What every operation of internal/outbox keeps: an invariant need only be kept by each of the
-- statements that a delivery, a drain, a start and a new mail run.
use mailbox_cli.Prelude.{
  ℕ, suc, Bool, ◌+◌, ◌≡◌, ap, ◌∙◌, inl, inr, ◌⊎◌, ◌&&◌, ◌||◌, not, Option, none, some, List, [],
  ◌∷◌, ◌++◌, map, Text, text_eq, arith, Bool-cases,
}
use mailbox_cli.Outbox.Types.{
  State, queued, sending, sent, state_eq, Item, Row, Handed, World, nil_transport,
}
use mailbox_cli.Outbox.Store.{M, max_id, Result, ok, err, scan, exec}
use mailbox_cli.Outbox.Queue.{
  update, row_of, hold_found, as_sending, as_sent, as_filed, as_requeued, with_error, get,
  mark_filed, mark_sent, requeue, claim, note_error, hold, by_state, hold_interrupted, enqueue,
  pending_for, unfiled_for, by_state_and_account,
}
use mailbox_cli.Outbox.Courier.{
  Courier, submit, handed_over, append, record_copy, file, settle, deliver_as, deliver, file_all,
  send_all, send_next, drain_found, drain_rest, drain, copy_failed, recover, Drained,
}
use mailbox_cli.Outbox.Runs.{
  Runs, Post, Runs-pure, Runs-raise, Runs-if, Runs-pre, Runs-post, Runs-bind, Runs-exec, Runs-query,
  Runs-insert, Runs-append, Runs-submit, Runs-move, Runs-get, Runs-fact, ◌⇒◌, Assert,
}
use mailbox_cli.Outbox.Rows.{row_at, row_at-id}

-- What an invariant `I` needs so that every operation keeps it. `R id` holds while row `id` is
-- handed over, and `A id answer` once the submission server has answered.
pub record Handover (I : Assert) (R : ℕ → Assert) (A : ℕ → Option Text → Assert) : Type 0 where
  pub ready_keeps : (id : ℕ) → R id ⇒ I
  pub answered_keeps : (id : ℕ) (answer : Option Text) → A id answer ⇒ I
  pub claimed :
      (id now : ℕ) (rows : List Row) (log : List Handed) (r : Row)
      → I rows log
      → row_at id rows ≡ some r
      → r.state ≡ queued
      → R id (update id (as_sending now) rows) log
  pub handed :
      (id : ℕ) (answer : Option Text) (taken : Bool) (rows : List Row) (log : List Handed)
      → R id rows log
      → A id answer rows (handed_over id answer taken ∷ log)
  pub requeued :
      (id : ℕ) (refusal : Text) (rows : List Row) (log : List Handed)
      → A id (some refusal) rows log
      → I (update id (as_requeued (some refusal)) rows) log
  pub recorded :
      (id now : ℕ) (rows : List Row) (log : List Handed) (r : Row)
      → I rows log
      → row_at id rows ≡ some r
      → r.state ≡ sending
      → I (update id (as_sent now) rows) log
  pub filed_away :
      (id : ℕ) (box : Text) (uid now : ℕ) (rows : List Row) (log : List Handed)
      → I rows log
      → I (update id (as_filed box uid now) rows) log
  pub noted :
      (id : ℕ) (cause : Option Text) (rows : List Row) (log : List Handed)
      → I rows log
      → I (update id (with_error cause) rows) log
  pub stopped : (rows : List Row) (log : List Handed) → I rows log → I (map hold rows) log
  pub entered :
      (it : Item) (now : ℕ) (rows : List Row) (log : List Handed)
      → I rows log
      → I (rows ++ row_of it (suc (max_id rows)) now ∷ []) log

module _ {I : Assert} {R : ℕ → Assert} {A : ℕ → Option Text → Assert} (g : Handover I R A) where
  -- The operation keeps `Once`, whether it returns or fails.
  abbrev pub Keeps : {B : Type 0} → M B → Type 0
  Keeps m = Runs I m (λ _. I) I

  claim-Runs : (id : ℕ) → Runs I (claim id) (λ _. R id) I
  unfolding claim
  claim-Runs id =
      Runs-move id (queued ∷ []) as_sending (λ rows log h. h)
        λ now rows log r h e q. g.claimed id now rows log r h e (ground arith)

  submit-Runs : (id : ℕ) (it : Item) → it.id ≡ id → Runs (R id) (submit it) (A id) I
  submit-Runs id it e =
      Runs-submit it λ answer taken rows log h. rw e (g.handed id answer taken rows log h)

  get-Runs : (id : ℕ) → Runs I (get id) (λ it. I) I
  get-Runs id =
      Runs-post (λ it. I) I (get id) (Runs-get I id) (λ it rows log h. h.0) (λ rows log h. h)

  mark_filed-Runs : (id : ℕ) (box : Text) (uid : ℕ) → Keeps (mark_filed id box uid)
  unfolding mark_filed
  mark_filed-Runs id box uid = Runs-exec _ (λ rows log h. h) (g.filed_away id box uid)

  note_error-Runs : (id : ℕ) (cause : Option Text) → Keeps (note_error id cause)
  unfolding note_error
  note_error-Runs id cause = Runs-exec _ (λ rows log h. h) (λ now. g.noted id cause)

  requeue-Runs :
      (id : ℕ) (refusal : Text) → Runs (A id (some refusal)) (requeue id (some refusal)) (λ _. I) I
  unfolding requeue
  requeue-Runs id refusal =
      Runs-exec _ (g.answered_keeps id (some refusal)) (λ now. g.requeued id refusal)

  mark_sent-Runs : (id : ℕ) → Keeps (mark_sent id)
  unfolding mark_sent
  mark_sent-Runs id =
      Runs-move id (sending ∷ []) as_sent (λ rows log h. h)
        λ now rows log r h e q. g.recorded id now rows log r h e (ground arith)

  record_copy-Keeps : (c : Courier) (id : ℕ) (answer : Text ⊎ ℕ) → Keeps (record_copy c id answer)
  unfolding record_copy
  record_copy-Keeps c id (inl cause) =
      Runs-bind (λ _. I) (note_error id (some (copy_failed cause))) _
        (note_error-Runs id (some (copy_failed cause))) (λ _. get-Runs id)
  record_copy-Keeps c id (inr uid) =
      Runs-bind (λ _. I) (mark_filed id c.sent_box uid) _ (mark_filed-Runs id c.sent_box uid)
        (λ _. get-Runs id)

  file-Keeps : (c : Courier) (id : ℕ) → Keeps (file c id)
  unfolding file
  file-Keeps c id =
      Runs-bind (λ _. I) (get id) _ (get-Runs id)
        λ it.
          Runs-if (not c.has_filer && c.has_transport) _ _
            (λ _.
              Runs-bind (λ _. I) (mark_filed id c.sent_box 0) _ (mark_filed-Runs id c.sent_box 0)
                (λ _. get-Runs id))
            (λ _.
              Runs-if (text_eq c.sent_box [] || not c.has_filer) _ _
                (λ _. Runs-pure it (λ rows log h. h))
                (λ _.
                  Runs-bind (λ _. I) (append c.sent_box it.raw) _
                    (Runs-append c.sent_box it.raw (λ answer rows log h. h))
                    (record_copy-Keeps c id)))

  settle-Runs :
      (c : Courier) (id : ℕ) (answer : Option Text)
      → Runs (A id answer) (settle c id answer) (λ _. I) I
  unfolding settle
  settle-Runs c id (some refusal) =
      Runs-bind (λ _. I) (requeue id (some refusal)) _ (requeue-Runs id refusal) (λ _. get-Runs id)
  settle-Runs c id none =
      Runs-pre I _ (g.answered_keeps id none)
        (Runs-bind (λ _. I) (mark_sent id) _ (mark_sent-Runs id) (λ _. file-Keeps c id))

  deliver_as-Keeps :
      (c : Courier) (id : ℕ) (it : Item) (s : State) → it.id ≡ id → Keeps (deliver_as c id it s)
  unfolding deliver_as
  deliver_as-Keeps c id it queued e =
      Runs-if c.has_transport _ _
        (λ _.
          Runs-bind (λ _. R id) (claim id) _ (claim-Runs id)
            λ _. Runs-bind (A id) (submit it) _ (submit-Runs id it e) (settle-Runs c id))
        (λ _.
          Runs-bind (λ _. R id) (claim id) _ (claim-Runs id)
            λ _. Runs-raise nil_transport (g.ready_keeps id))
  deliver_as-Keeps c id it sent e = file-Keeps c id
  deliver_as-Keeps c id it _ e = Runs-raise _ (λ rows log h. h)

  get-id : (id : ℕ) → Runs I (get id) (λ it rows log. I rows log × (it.id ≡ id)) I
  unfolding scan
  get-id id =
      Runs-post (λ it rows log. I rows log × (it.id ≡ id)) I (get id) (Runs-get I id)
        (λ it rows log h.
          (h.0, ap (λ (i : Item). i.id) (h.1).2 ∙ row_at-id id rows (h.1).0 (h.1).1))
        (λ rows log h. h)

  pub deliver-Keeps : (c : Courier) (id : ℕ) → Keeps (deliver c id)
  unfolding deliver
  deliver-Keeps c id =
      Runs-bind (λ it rows log. I rows log × (it.id ≡ id)) (get id) _ (get-id id)
        λ it. Runs-fact (deliver_as c id it it.state) (deliver_as-Keeps c id it it.state)

  abbrev pub HoldsIn : World → Type 0
  HoldsIn w = I w.rows w.log

  of_post : {B : Type 0} (r : Result B) (w : World) → Post (λ _. I) I r w.rows w.log → HoldsIn w
  of_post (ok a) w p = p
  of_post (err e) w p = p

  -- Whatever an operation returns, the invariant holds of what it left.
  pub Keeps-world : {B : Type 0} (m : M B) → Keeps m → (w : World) → HoldsIn w → HoldsIn (m w).1
  Keeps-world m k w h = of_post (m w).0 (m w).1 (k.at w h)

  file_all-Holds :
      (c : Courier) (items : List Item) (w : World) → HoldsIn w → HoldsIn (file_all c items w).1
  unfolding file_all
  file_all-Holds c [] w h = h
  file_all-Holds c (it ∷ more) w h =
      file_all-Holds c more (file c it.id w).1 (Keeps-world (file c it.id) (file-Keeps c it.id) w h)

  send_next-Holds :
      (n : ℕ) (r : Result Item) (w : World) (rest : World → Drained × World)
      → ((v : World) → HoldsIn v → HoldsIn (rest v).1)
      → HoldsIn w
      → HoldsIn (send_next n (r, w) rest).1
  unfolding send_next
  send_next-Holds n (err e) w rest k h = h
  send_next-Holds n (ok out) w rest k h = elim (Bool-cases (state_eq out.state queued)) [
    | inl e ↦ rw e h
    | inr e ↦ rw e (k w h)
  ]

  send_all-Holds :
      (c : Courier) (n : ℕ) (items : List Item) (w : World)
      → HoldsIn w
      → HoldsIn (send_all c n items w).1
  unfolding send_all
  send_all-Holds c n [] w h = h
  send_all-Holds c n (it ∷ more) w h =
      send_next-Holds n (deliver c it.id w).0 (deliver c it.id w).1 (send_all c (n + 1) more)
        (send_all-Holds c (n + 1) more) (Keeps-world (deliver c it.id) (deliver-Keeps c it.id) w h)

  by_state_and_account-Keeps : (s : State) (account : Text) → Keeps (by_state_and_account s account)
  unfolding by_state_and_account by_state
  by_state_and_account-Keeps s [] = Runs-query _ (λ rows log h. h) (λ now rows log h. h)
  by_state_and_account-Keeps s (x ∷ xs) = Runs-query _ (λ rows log h. h) (λ now rows log h. h)

  drain_found-Holds :
      (c : Courier) (r : Result (List Item)) (w : World)
      → HoldsIn w
      → HoldsIn (drain_found c (r, w)).1
  unfolding drain_found
  drain_found-Holds c (err e) w h = h
  drain_found-Holds c (ok pending) w h = send_all-Holds c 0 pending w h

  drain_rest-Holds :
      (c : Courier) (r : Result (List Item)) (w : World)
      → HoldsIn w
      → HoldsIn (drain_rest c (r, w)).1
  unfolding drain_rest pending_for
  drain_rest-Holds c (err e) w h = h
  drain_rest-Holds c (ok unfiled) w h =
      let filed_all = file_all-Holds c unfiled w h in
      let look = by_state_and_account queued c.account in
      drain_found-Holds c (look (file_all c unfiled w).1).0 (look (file_all c unfiled w).1).1
        (Keeps-world look (by_state_and_account-Keeps queued c.account) _ filed_all)

  pub drain-Holds : (c : Courier) (w : World) → HoldsIn w → HoldsIn (drain c w).1
  unfolding drain unfiled_for
  drain-Holds c w h =
      let look = by_state_and_account sent c.account in
      drain_rest-Holds c (look w).0 (look w).1
        (Keeps-world look (by_state_and_account-Keeps sent c.account) w h)

  hold_found-Keeps : (items : List Item) → Keeps (hold_found items)
  unfolding hold_found
  hold_found-Keeps [] = Runs-pure [] (λ rows log h. h)
  hold_found-Keeps (it ∷ items) =
      Runs-bind (λ _. I) (exec (λ _. map hold)) _ (Runs-exec _ (λ rows log h. h) (λ now. g.stopped))
        (λ _. Runs-pure _ (λ rows log h. h))

  pub recover-Keeps : Keeps recover
  unfolding recover hold_interrupted by_state
  recover-Keeps =
      Runs-bind (λ _. I) _ _ (Runs-query _ (λ rows log h. h) (λ now rows log h. h)) hold_found-Keeps

  pub enqueue-Keeps : (it : Item) → Keeps (enqueue it)
  unfolding enqueue
  enqueue-Keeps it = Runs-insert (row_of it) (λ rows log h. h) (g.entered it)
