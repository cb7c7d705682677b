-- ===== src/Outbox/Tests.antt =====
-- Runs of internal/outbox at concrete inputs, and the theorems about it at such inputs.
use mailbox_cli.Prelude.{
  ℕ, suc, ◌≤◌, ◌≡◌, refl, inr, true, false, Option, none, some, List, [], ◌∷◌, codes, arith, ◌==◌,
  All,
}
use mailbox_cli.Prelude.Words.{IsWord}
use mailbox_cli.Outbox.Types.{queued, sending, filed, held, state_eq, Item, Row, Env, World}
use mailbox_cli.Outbox.Store.{ok, exec, query, insert, now, scan, max_id}
use mailbox_cli.Outbox.Queue.{
  enqueue, row_of, get, first, by_state, by_state_and_account, pending_for, unfiled_for, move,
  update, claim, mark_sent, mark_filed, hold, hold_found, hold_interrupted,
}
use mailbox_cli.Outbox.Courier.{
  Courier, submit, is_accepted, append, record_copy, file, settle, deliver_as, deliver, file_all,
  send_next, send_all, drain_found, drain_rest, drain, recover,
}
use mailbox_cli.Outbox.Rows.{row_at, state_at}
use mailbox_cli.Outbox.Once.{accepted, lost}
use mailbox_cli.Outbox.Settled.{is_done, handovers}
use mailbox_cli.Outbox.History.{
  Auto, enter, send, empty_queue, restart, Op, auto, again, drop, run_autos, run_ops, start,
  at_most_once, sent_is_final,
}
use mailbox_cli.Outbox.Recovery.{Names, AreHeld, recover_misses-Scheduled, recover_holds}
use mailbox_cli.Outbox.RoundTrip.{as_queued, get-enqueue}

-- No statement fails, the clock stands at 100, and both servers accept everything.
abbrev pub calm : Env
calm = record {
  fails = λ n. false;
  clock = λ n. 100;
  submit = λ n from to raw. none;
  taken_anyway = λ n. false;
  append = λ n folder flags raw. inr 7;
}

-- The fifth statement fails: at the first delivery, the one that would record the sending.
abbrev broken : Env
broken = record calm { fails = λ n. n == 4 }

abbrev pub letter : Item
letter = record {
  id = 0;
  account = codes "work";
  message_key = codes "k@example.org";
  sender = codes "a@example.org";
  recipients = codes "b@example.org" ∷ codes "c@example.org" ∷ [];
  subject = codes "Hello";
  raw = codes "Hello there";
  state = queued;
  attempts = 0;
  last_error = [];
  created_at = 0;
  sent_at = none;
  filed_at = none;
  box = [];
  uid = 0;
  not_before = none;
}

abbrev courier : Courier
courier = record {
  has_transport = true;
  has_filer = true;
  account = codes "work";
  sent_box = codes "Sent";
}

abbrev sent_once : List Auto
sent_once = enter letter ∷ empty_queue courier ∷ empty_queue courier ∷ []

delivered : state_at 1 (run_autos sent_once (start calm)).rows ≡ some filed
unfolding enqueue row_of insert max_id drain drain_rest drain_found unfiled_for pending_for
    by_state_and_account query scan file_all send_all send_next deliver deliver_as get first claim
    move exec update submit is_accepted settle mark_sent file append record_copy mark_filed row_at
delivered = refl

-- The daemon dies between the submission server and the record of it, and starts again.
abbrev interrupted_once : List Auto
interrupted_once = enter letter ∷ send courier 1 ∷ restart ∷ empty_queue courier ∷ []

interrupted_is_held : state_at 1 (run_autos interrupted_once (start broken)).rows ≡ some held
unfolding enqueue row_of insert max_id drain drain_rest drain_found unfiled_for pending_for
    by_state_and_account query scan file_all send_all send_next deliver deliver_as get first claim
    move exec update submit is_accepted settle mark_sent file append record_copy mark_filed row_at
    recover hold_interrupted by_state hold_found hold
interrupted_is_held = refl

at_most_once_example :
    (accepted 1 (run_autos interrupted_once (start broken)).log
      ≤ suc (lost 1 (run_autos interrupted_once (start broken)).log))
    × (state_at 1 (run_autos interrupted_once (start broken)).rows ≡ some queued
        → accepted 1 (run_autos interrupted_once (start broken)).log
          ≤ lost 1 (run_autos interrupted_once (start broken)).log)
at_most_once_example = at_most_once broken interrupted_once 1

abbrev asked : List Op
asked = drop 1 ∷ again 1 ∷ auto (empty_queue courier) ∷ []

filed_is_done : is_done (state_at 1 (run_autos sent_once (start calm)).rows) ≡ true
filed_is_done = rw delivered

sent_is_final_example :
    (is_done (state_at 1 (run_ops asked (run_autos sent_once (start calm))).rows) ≡ true)
    × (handovers 1 (run_ops asked (run_autos sent_once (start calm))).log
        ≡ handovers 1 (run_autos sent_once (start calm)).log)
sent_is_final_example = sent_is_final asked 1 (run_autos sent_once (start calm)) filed_is_done

-- A row that was handed over by a process that died.
abbrev row : ℕ → Option ℕ → Row
row id later = record {
  id = id;
  account = codes "work";
  message_key = codes "k@example.org";
  from_addr = codes "a@example.org";
  recipients = codes "b@example.org";
  subject = codes "Hello";
  raw = codes "Hello there";
  state = sending;
  attempts = 1;
  last_error = [];
  created_at = 0;
  sent_at = none;
  filed_at = none;
  box = [];
  uid = 0;
  not_before = later;
}

abbrev left_sending : List Row → World
left_sending rows = record { env = calm; rows = rows; statements = 0; appends = 0; log = [] }

-- The clock stands at 100, and the mail was scheduled for 500.
recover_misses-Scheduled_example :
    (recover (left_sending (row 1 (some 500) ∷ []))).1.rows ≡ row 1 (some 500) ∷ []
recover_misses-Scheduled_example =
    recover_misses-Scheduled (left_sending (row 1 (some 500) ∷ [])) (λ e. omega arith, tt)

recover_holds_example :
    let w = left_sending (row 1 none ∷ row 2 (some 500) ∷ []) in
    ((items : List Item) × ((recover w).0 ≡ ok items) × Names (now w) w.rows items)
    × AreHeld w.rows (recover w).1.rows
    × All (λ r. state_eq r.state sending ≡ false) (recover w).1.rows
recover_holds_example =
    recover_holds (left_sending (row 1 none ∷ row 2 (some 500) ∷ [])) (λ n. refl) refl

recipients_are_words : All IsWord letter.recipients
recipients_are_words = (
  record { some_text = λ e. cc; no_space = ground arith },
  (record { some_text = λ e. cc; no_space = ground arith }, tt),
)

get-enqueue_example :
    ((enqueue letter (start calm)).0 ≡ ok (suc (max_id [])))
    × ((get (suc (max_id [])) (enqueue letter (start calm)).1).0
        ≡ ok (as_queued letter (suc (max_id [])) (now (start calm))))
get-enqueue_example = get-enqueue (start calm) letter (λ n. refl) recipients_are_words
