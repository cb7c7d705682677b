-- ===== src/Outbox/Delivery.antt =====
-- internal/outbox/courier.go, Deliver: a mail that the submission server takes is sent.
use mailbox_cli.Prelude.{
  ℕ, suc, ◌≡◌, refl, sym, subst, inl, inr, ◌⊎◌, Bool, true, false, ◌&&◌, ◌||◌, not, none, some,
  List, [], ◌∷◌, Text, codes, text_eq, if◌then◌else◌, length,
}
use mailbox_cli.Outbox.Types.{State, queued, sending, sent, filed, nil_transport, Item, Row, World}
use mailbox_cli.Outbox.Store.{Result, ok, pure, raise, ◌>>=◌, ◌>>◌, exec, now, scan}
use mailbox_cli.Outbox.Queue.{
  update, get, claim, mark_sent, mark_filed, note_error, as_sending, as_sent, as_filed, with_error,
}
use mailbox_cli.Outbox.Courier.{
  handed_over, Courier, copy_failed, submit, append, record_copy, file, settle, deliver_as, deliver,
}
use mailbox_cli.Outbox.OneRow.{
  HasRow, IsSound, From, after, update-HasRow, update-From, tick-From, unchanged, get_lem, exec_lem,
  move_lem,
}

-- A mail that is delivered: its copy may be filed or not.
pub record IsDelivered (id : ℕ) (start : World) (r : Result Item × World) : Type 0 where
  pub item : Item
  pub answer : r.0 ≡ ok item
  pub state : (item.state ≡ sent) ⊎ (item.state ≡ filed)
  pub kept : HasRow id item.state r.1.rows
  pub from : From id start r.1

scanned-IsDelivered :
    (id : ℕ) (s : State) (w start : World) (has : HasRow id s w.rows)
    → From id start w
    → ((s ≡ sent) ⊎ (s ≡ filed))
    → IsDelivered id start (ok (scan has.row), w)
unfolding scan
scanned-IsDelivered id s w start has from done = record {
  item = scan has.row;
  answer = refl;
  state = rw has.in_state done;
  kept = record { row = has.row; more = has.more; picked = has.picked; in_state = refl };
  from = from;
}

read_back :
    (id : ℕ) (s : State) (w start : World)
    → From id start w
    → IsSound w
    → HasRow id s w.rows
    → ((s ≡ sent) ⊎ (s ≡ filed))
    → IsDelivered id start (get id w)
read_back id s w start from sound has done = rw (get_lem id s w sound has) (
    scanned-IsDelivered id s (after w w.rows (suc w.statements)) start has
      (tick-From id start w (suc w.statements) from) done)

-- An update of the row, which is then read.
updated :
    (id : ℕ) (s s' : State) (f : ℕ → Row → Row) (w start : World)
    → From id start w
    → IsSound w
    → HasRow id s w.rows
    → ((n : ℕ) (r : Row) → (f n r).id ≡ r.id)
    → ((n : ℕ) (r : Row) → r.state ≡ s → (f n r).state ≡ s')
    → ((s' ≡ sent) ⊎ (s' ≡ filed))
    → IsDelivered id start ((exec (λ now. update id (f now)) >> get id) w)
updated id s s' f w start from sound has same turns done =
    rw (exec_lem (λ now. update id (f now)) w sound) (
      read_back id s' (after w (update id (f (now w)) w.rows) (suc w.statements)) start
        (update-From id start w (f (now w)) (suc w.statements) (same (now w)) from) sound
        (update-HasRow id s s' (f (now w)) w.rows (same (now w)) (turns (now w)) has) done)

recorded :
    (c : Courier) (id : ℕ) (answer : Text ⊎ ℕ) (w start : World)
    → From id start w
    → IsSound w
    → HasRow id sent w.rows
    → IsDelivered id start (record_copy c id answer w)
unfolding record_copy mark_filed note_error
recorded c id (inl cause) w start from sound has =
    updated id sent sent (λ _. with_error (some (copy_failed cause))) w start from sound has
      (λ n r. refl) (λ n r e. e) (inl refl)
recorded c id (inr uid) w start from sound has =
    updated id sent filed (λ now. as_filed c.sent_box uid now) w start from sound has (λ n r. refl)
      (λ n r e. refl) (inr refl)

pub file-IsDelivered :
    (c : Courier) (id : ℕ) (w start : World)
    → From id start w
    → IsSound w
    → HasRow id sent w.rows
    → IsDelivered id start (file c id w)
unfolding file mark_filed append
file-IsDelivered c id w start from sound has =
    rw (get_lem id sent w sound has)
      (by_filer (not c.has_filer && c.has_transport) (text_eq c.sent_box [] || not c.has_filer))
  where
    w' : World
    w' = after w w.rows (suc w.statements)

    from' : From id start w'
    from' = tick-From id start w (suc w.statements) from

    by_filer :
        (copied kept : Bool)
        → IsDelivered id start (
            (if copied
                then (do mark_filed id c.sent_box 0; get id)
                else if kept
                then pure (scan has.row)
                else (do answer ← append c.sent_box (scan has.row).raw; record_copy c id answer))
              w')
    by_filer true kept =
        updated id sent filed (λ now. as_filed c.sent_box 0 now) w' start from' sound has
          (λ n r. refl) (λ n r e. refl) (inr refl)
    by_filer false true = scanned-IsDelivered id sent w' start has from' (inl refl)
    by_filer false false =
        recorded c id (w.env.append w.appends c.sent_box (codes "\\Seen" ∷ []) (scan has.row).raw)
          (record w' { appends = suc w.appends }) start
          (record { env = from'.env; ids = from'.ids; others = from'.others }) sound has

settle-IsDelivered :
    (c : Courier) (id : ℕ) (w start : World)
    → From id start w
    → IsSound w
    → HasRow id sending w.rows
    → IsDelivered id start (settle c id none w)
unfolding settle mark_sent
settle-IsDelivered c id w start from sound has =
    rw (move_lem id sending (sending ∷ []) as_sent w sound has refl) (
      file-IsDelivered c id
        (after w (update id (as_sent (w.env.clock (suc w.statements))) w.rows)
          (suc (suc w.statements)))
        start
        (update-From id start w (as_sent (w.env.clock (suc w.statements))) (suc (suc w.statements))
          (λ r. refl) from)
        sound
        (update-HasRow id sending sent (as_sent (w.env.clock (suc w.statements))) w.rows (λ r. refl)
          (λ r e. refl) has))

-- The submission server takes every mail.
abbrev pub TakesAll : World → Type 0
TakesAll w = (n : ℕ) (from : Text) (to : List Text) (raw : Text) → w.env.submit n from to raw ≡ none

submit-IsDelivered :
    (c : Courier) (id : ℕ) (it : Item) (w start : World)
    → From id start w
    → IsSound w
    → TakesAll w
    → HasRow id sending w.rows
    → IsDelivered id start ((do answer ← submit it; settle c id answer) w)
unfolding submit
submit-IsDelivered c id it w start from sound takes has =
    rw (takes (length w.log) it.sender it.recipients it.raw) (
      settle-IsDelivered c id
        (record w { log = handed_over it.id none (w.env.taken_anyway (length w.log)) ∷ w.log })
        start (record { env = from.env; ids = from.ids; others = from.others }) sound has)

claimed-IsDelivered :
    (c : Courier) (id : ℕ) (it : Item) (w start : World)
    → From id start w
    → IsSound w
    → TakesAll w
    → HasRow id queued w.rows
    → IsDelivered id start ((do claim id; answer ← submit it; settle c id answer) w)
unfolding claim
claimed-IsDelivered c id it w start from sound takes has =
    let rows = update id (as_sending (w.env.clock (suc w.statements))) w.rows in
    rw (move_lem id queued (queued ∷ []) as_sending w sound has refl) (
      submit-IsDelivered c id it (after w rows (suc (suc w.statements))) start
        (update-From id start w (as_sending (w.env.clock (suc w.statements)))
          (suc (suc w.statements)) (λ r. refl) from)
        sound takes
        (update-HasRow id queued sending (as_sending (w.env.clock (suc w.statements))) w.rows
          (λ r. refl) (λ r e. refl) has))

-- If no statement fails, the courier has a transport, and the submission server takes every mail, then
-- the delivery of a queued mail answers with it as sent or filed, so it is in the table, and the rows with
-- other ids are as they were.
pub deliver-IsDelivered :
    (c : Courier) (id : ℕ) (w : World)
    → IsSound w
    → c.has_transport ≡ true
    → TakesAll w
    → HasRow id queued w.rows
    → IsDelivered id w (deliver c id w)
unfolding deliver deliver_as
deliver-IsDelivered c id w sound transport takes has =
    let it = scan has.row in
    let w' = after w w.rows (suc w.statements) in
    let state : it.state ≡ queued = unfold scan in has.in_state in
    rw (get_lem id queued w sound has) (
      subst (λ s. IsDelivered id w (deliver_as c id it s w')) (sym state)
        (subst
          (λ b. IsDelivered id w (
            (if b
                then (do claim id; answer ← submit it; settle c id answer)
                else (do claim id; raise nil_transport))
              w'))
          (sym transport)
          (claimed-IsDelivered c id it w' w (tick-From id w w (suc w.statements) (unchanged id w))
            sound takes has)))
