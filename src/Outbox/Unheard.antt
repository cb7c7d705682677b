-- ===== src/Outbox/Unheard.antt =====
-- internal/outbox/courier.go, Deliver: what becomes of a mail that the submission server took, where
-- the sending ended in an error all the same, as internal/smtpdrv/smtpdrv.go does if QUIT fails.
use mailbox_cli.Prelude.{
  ℕ, suc, ◌≡◌, refl, ap, ◌∙◌, sym, subst, true, some, List, [], ◌∷◌, Text, arith, length, select,
  ◌==◌, Bool-cases, inl, inr, if◌then◌else◌,
}
use mailbox_cli.Outbox.Types.{queued, sending, Item, Row, World, nil_transport}
use mailbox_cli.Outbox.Store.{scan, ◌>>=◌, ◌>>◌, raise}
use mailbox_cli.Outbox.Queue.{update, claim, requeue, as_sending, as_requeued}
use mailbox_cli.Outbox.Courier.{
  Courier, deliver, deliver_as, submit, settle, handed_over, is_accepted,
}
use mailbox_cli.Outbox.OneRow.{HasRow, IsSound, after, get_lem, exec_lem, move_lem, update-HasRow}
use mailbox_cli.Outbox.Once.{accepted}

-- The submission server takes every mail, and every sending ends in an error.
pub record TakesUnheard (why : Text) (w : World) : Type 0 where
  pub answers :
      (n : ℕ) (from : Text) (to : List Text) (raw : Text) → w.env.submit n from to raw ≡ some why
  pub takes : (n : ℕ) → w.env.taken_anyway n ≡ true

-- The mail is queued again, and the server has taken it once more.
record IsTakenAgain (id : ℕ) (start w : World) : Type 0 where
  env : w.env ≡ start.env
  has : HasRow id queued w.rows
  count : accepted id w.log ≡ suc (accepted id start.log)

select-id :
    (id : ℕ) (rows : List Row) (r : Row) (more : List Row)
    → select (λ (x : Row). x.id == id) rows ≡ r ∷ more
    → r.id ≡ id
select-id id [] r more e = cc
select-id id (x ∷ rows) r more e = elim (Bool-cases (x.id == id)) [
  | inl h ↦ ground (arith, e, h)
  | inr h ↦ select-id id rows r more (ground (arith, e, h))
]

settle-IsTakenAgain :
    (c : Courier) (id : ℕ) (why : Text) (start w : World)
    → w.env ≡ start.env
    → accepted id w.log ≡ suc (accepted id start.log)
    → IsSound w
    → HasRow id sending w.rows
    → IsTakenAgain id start (settle c id (some why) w).1
unfolding settle requeue
settle-IsTakenAgain c id why start w env count sound has =
    let rows = update id (as_requeued (some why)) w.rows in
    let back =
      update-HasRow id sending queued (as_requeued (some why)) w.rows (λ r. refl) (λ r e. refl)
        has in
    rw
      (
        exec_lem (λ _. update id (as_requeued (some why))) w sound,
        get_lem id queued (after w rows (suc w.statements)) sound back,
      )
      (record { env = env; has = back; count = count })

submit-IsTakenAgain :
    (c : Courier) (id : ℕ) (it : Item) (why : Text) (start w : World)
    → w.env ≡ start.env
    → w.log ≡ start.log
    → it.id ≡ id
    → TakesUnheard why w
    → IsSound w
    → HasRow id sending w.rows
    → IsTakenAgain id start ((do answer ← submit it; settle c id answer) w).1
unfolding submit
submit-IsTakenAgain c id it why start w env log same unheard sound has =
    rw (unheard.answers (length w.log) it.sender it.recipients it.raw, unheard.takes (length w.log))
      (settle-IsTakenAgain c id why start
        (record w { log = handed_over it.id (some why) true ∷ w.log }) env
        (unfold is_accepted in ground (arith, same, log)) sound has)

deliver-IsTakenAgain :
    (c : Courier) (id : ℕ) (why : Text) (w : World)
    → IsSound w
    → c.has_transport ≡ true
    → TakesUnheard why w
    → HasRow id queued w.rows
    → IsTakenAgain id w (deliver c id w).1
unfolding deliver deliver_as claim
deliver-IsTakenAgain c id why w sound transport unheard has =
    let it = scan has.row in
    let w' = after w w.rows (suc w.statements) in
    let state : it.state ≡ queued = unfold scan in has.in_state in
    let same : it.id ≡ id = unfold scan in select-id id w.rows has.row has.more has.picked in
    let rows = update id (as_sending (w.env.clock (suc (suc w.statements)))) w.rows in
    rw (get_lem id queued w sound has) (
      subst (λ s. IsTakenAgain id w (deliver_as c id it s w').1) (sym state)
        (subst
          (λ b.
            IsTakenAgain id w
              ((if b
                  then (do claim id; answer ← submit it; settle c id answer)
                  else (do claim id; raise nil_transport))
                w').1)
          (sym transport)
          (rw (move_lem id queued (queued ∷ []) as_sending w' sound has refl) (
            submit-IsTakenAgain c id it why w (after w' rows (suc (suc w'.statements))) refl refl
              same (record { answers = unheard.answers; takes = unheard.takes }) sound
              (update-HasRow id queued sending (as_sending (w.env.clock (suc (suc w.statements))))
                w.rows (λ r. refl) (λ r e. refl) has)))))

-- If no statement fails, the courier has a transport, and the submission server takes every mail while
-- every sending ends in an error, then two deliveries of a queued mail hand it over twice, both times the
-- server takes it, and it is queued for a third.
pub sent_twice :
    (c : Courier) (id : ℕ) (why : Text) (w : World)
    → IsSound w
    → c.has_transport ≡ true
    → TakesUnheard why w
    → HasRow id queued w.rows
    → let w' = (deliver c id (deliver c id w).1).1 in
      (accepted id w'.log ≡ suc (suc (accepted id w.log))) × HasRow id queued w'.rows
sent_twice c id why w sound transport unheard has =
    let w1 = (deliver c id w).1 in
    let one = deliver-IsTakenAgain c id why w sound transport unheard has in
    let two =
      deliver-IsTakenAgain c id why w1 (λ n. rw one.env (sound n)) transport
        (record {
          answers = λ n from to raw. rw one.env (unheard.answers n from to raw);
          takes = λ n. rw one.env (unheard.takes n);
        })
        one.has in
    (two.count ∙ ap suc one.count, two.has)
