-- ===== src/Outbox/History.antt =====
-- Histories of the queue of internal/outbox: any operations, in any order, whichever statements
-- fail and whatever the servers answer. An operation whose statements fail from some point on is
-- a daemon that died there.
use mailbox_cli.Prelude.{ℕ, suc, ◌≤◌, ◌≡◌, refl, true, some, List, [], ◌∷◌, arith}
use mailbox_cli.Outbox.Types.{queued, Item, Env, World}
use mailbox_cli.Outbox.Queue.{enqueue, retry, cancel}
use mailbox_cli.Outbox.Courier.{Courier, deliver, drain, recover}
use mailbox_cli.Outbox.Rows.{row_at, state_at}
use mailbox_cli.Outbox.Handover.{
  HoldsIn, Keeps-world, enqueue-Keeps, deliver-Keeps, drain-Holds, recover-Keeps,
}
use mailbox_cli.Outbox.Once.{Once, accepted, lost, Once-Handover}
use mailbox_cli.Outbox.Settled.{
  Settled, Settled-Handover, is_done, handovers, retry-Keeps, cancel-Keeps,
}

-- What the daemon does by itself, or at the sending of a mail.
pub data Auto : Type 0 where
  enter : Item → Auto
  send : Courier → ℕ → Auto
  empty_queue : Courier → Auto
  restart : Auto

abbrev pub run_auto : Auto → World → World
run_auto (enter it) w = (enqueue it w).1
run_auto (send c id) w = (deliver c id w).1
run_auto (empty_queue c) w = (drain c w).1
run_auto restart w = (recover w).1

abbrev pub run_autos : List Auto → World → World
run_autos [] w = w
run_autos (a ∷ more) w = run_autos more (run_auto a w)

-- What a person may ask for besides.
pub data Op : Type 0 where
  auto : Auto → Op
  again drop : ℕ → Op

abbrev pub run_op : Op → World → World
run_op (auto a) w = run_auto a w
run_op (again id) w = (retry id w).1
run_op (drop id) w = (cancel id w).1

abbrev pub run_ops : List Op → World → World
run_ops [] w = w
run_ops (o ∷ more) w = run_ops more (run_op o w)

-- An empty queue in some environment.
abbrev pub start : Env → World
start env = record { env = env; rows = []; statements = 0; appends = 0; log = [] }

auto-Once :
    (j : ℕ) (a : Auto) (w : World) → Once j w.rows w.log → HoldsIn (Once-Handover j) (run_auto a w)
auto-Once j (enter it) w h =
    Keeps-world (Once-Handover j) (enqueue it) (enqueue-Keeps (Once-Handover j) it) w h
auto-Once j (send c id) w h =
    Keeps-world (Once-Handover j) (deliver c id) (deliver-Keeps (Once-Handover j) c id) w h
auto-Once j (empty_queue c) w h = drain-Holds (Once-Handover j) c w h
auto-Once j restart w h =
    Keeps-world (Once-Handover j) recover (recover-Keeps (Once-Handover j)) w h

autos-Once :
    (j : ℕ) (autos : List Auto) (w : World)
    → Once j w.rows w.log
    → HoldsIn (Once-Handover j) (run_autos autos w)
autos-Once j [] w h = h
autos-Once j (a ∷ more) w h = autos-Once j more (run_auto a w) (auto-Once j a w h)

start-Once : (j : ℕ) (env : Env) → Once j (start env).rows (start env).log
unfolding row_at
start-Once j env = ground arith

-- From an empty queue, through any sequence of new mails, deliveries, drains and starts of the
-- daemon, whichever statements fail and whatever the servers answer, the submission server
-- accepts the mail of a row at most once more than the sending of it ended in an error though the
-- server took it, and at most as often as that while the row is queued.
pub at_most_once :
    (env : Env) (autos : List Auto) (j : ℕ)
    → let w = run_autos autos (start env) in
      (accepted j w.log ≤ suc (lost j w.log))
      × (state_at j w.rows ≡ some queued → accepted j w.log ≤ lost j w.log)
at_most_once env autos j =
    let h = autos-Once j autos (start env) (start-Once j env) in (h.once, h.fresh)

op-Settled :
    (j n : ℕ) (o : Op) (w : World)
    → Settled j n w.rows w.log
    → HoldsIn (Settled-Handover j n) (run_op o w)
op-Settled j n (auto (enter it)) w h =
    Keeps-world (Settled-Handover j n) (enqueue it) (enqueue-Keeps (Settled-Handover j n) it) w h
op-Settled j n (auto (send c id)) w h =
    Keeps-world (Settled-Handover j n) (deliver c id) (deliver-Keeps (Settled-Handover j n) c id) w
      h
op-Settled j n (auto (empty_queue c)) w h = drain-Holds (Settled-Handover j n) c w h
op-Settled j n (auto restart) w h =
    Keeps-world (Settled-Handover j n) recover (recover-Keeps (Settled-Handover j n)) w h
op-Settled j n (again id) w h =
    Keeps-world (Settled-Handover j n) (retry id) (retry-Keeps j n id) w h
op-Settled j n (drop id) w h =
    Keeps-world (Settled-Handover j n) (cancel id) (cancel-Keeps j n id) w h

ops-Settled :
    (j n : ℕ) (ops : List Op) (w : World)
    → Settled j n w.rows w.log
    → HoldsIn (Settled-Handover j n) (run_ops ops w)
ops-Settled j n [] w h = h
ops-Settled j n (o ∷ more) w h = ops-Settled j n more (run_op o w) (op-Settled j n o w h)

-- A row that is sent or filed stays sent or filed through any operations, those that a person asks
-- for among them, and its mail is not handed to the submission server again.
pub sent_is_final :
    (ops : List Op) (j : ℕ) (w : World)
    → is_done (state_at j w.rows) ≡ true
    → let w' = run_ops ops w in
      (is_done (state_at j w'.rows) ≡ true) × (handovers j w'.log ≡ handovers j w.log)
sent_is_final ops j w h =
    let s = ops-Settled j (handovers j w.log) ops w (record { done = h; count = refl }) in
    (s.done, s.count)
