-- ===== src/Outbox/SendingTests.antt =====
-- Deliveries of internal/outbox/courier.go, where both servers accept everything, and where the
-- submission server accepts everything unheard.
use mailbox_cli.Prelude.{suc, ◌≡◌, none, some, refl, true, [], ◌∷◌, codes, arith}
use mailbox_cli.Outbox.Types.{queued, Env, Item, World}
use mailbox_cli.Outbox.Queue.{row_of}
use mailbox_cli.Outbox.Courier.{Courier, deliver, drain, send_all}
use mailbox_cli.Outbox.OneRow.{HasRow, IsSound}
use mailbox_cli.Outbox.Delivery.{TakesAll}
use mailbox_cli.Outbox.Sending.{IsOut, AreApart, AreSent, send_all-AreSent}
use mailbox_cli.Outbox.Unique.{AreUnique}
use mailbox_cli.Outbox.Draining.{Carries, drain-IsOut}
use mailbox_cli.Outbox.Once.{accepted}
use mailbox_cli.Outbox.Unheard.{TakesUnheard, sent_twice}
use mailbox_cli.Outbox.Tests.{calm, letter}

abbrev courier : Courier
courier = record {
  has_transport = true;
  has_filer = true;
  account = codes "work";
  sent_box = codes "Sent";
}

abbrev one : Item
one = record letter { id = 1 }

abbrev two : Item
two = record letter { id = 2 }

abbrev two_queued : World
two_queued = record {
  env = calm;
  rows = row_of letter 1 50 ∷ row_of letter 2 60 ∷ [];
  statements = 0;
  appends = 0;
  log = [];
}

calm-IsSound : IsSound two_queued
calm-IsSound n = refl

calm-TakesAll : TakesAll two_queued
calm-TakesAll n from to raw = refl

abbrev one_queued : HasRow 1 queued two_queued.rows
unfolding row_of
one_queued = record { row = row_of letter 1 50; more = []; picked = refl; in_state = refl }

two_queued_too : HasRow 2 queued two_queued.rows
unfolding row_of
two_queued_too = record { row = row_of letter 2 60; more = []; picked = refl; in_state = refl }

two_apart : AreApart (one ∷ two ∷ [])
two_apart = (((λ e. omega (arith, e)), tt), (tt, tt))

two_unique : AreUnique two_queued.rows
unfolding row_of
two_unique = (((λ e. omega (arith, e)), tt), (tt, tt))

one_carried : Carries courier.account one_queued.row
unfolding row_of
one_carried = refl

one_unscheduled : one_queued.row.not_before ≡ none
unfolding row_of
one_unscheduled = refl

drain-IsOut_example :
    ((drain courier two_queued).0.1 ≡ none) × IsOut 1 (drain courier two_queued).1.rows
drain-IsOut_example =
    drain-IsOut courier 1 two_queued calm-IsSound refl calm-TakesAll two_unique one_queued
      one_carried one_unscheduled

send_all-AreSent_example :
    AreSent 0 (one ∷ two ∷ []) two_queued (send_all courier 0 (one ∷ two ∷ []) two_queued)
send_all-AreSent_example =
    send_all-AreSent courier refl 0 (one ∷ two ∷ []) two_queued calm-IsSound calm-TakesAll
      (one_queued, (two_queued_too, tt)) two_apart

-- The connection is lost whenever the server has taken a mail.
abbrev unheard : Env
unheard = record calm {
  submit = λ n from to raw. some (codes "smtp quit: EOF");
  taken_anyway = λ n. true;
}

abbrev two_unheard : World
two_unheard = record two_queued { env = unheard }

two_unheard-TakesUnheard : TakesUnheard (codes "smtp quit: EOF") two_unheard
two_unheard-TakesUnheard = record { answers = λ n from to raw. refl; takes = λ n. refl }

sent_twice_example :
    let w = (deliver courier 1 (deliver courier 1 two_unheard).1).1 in
    (accepted 1 w.log ≡ suc (suc (accepted 1 two_unheard.log))) × HasRow 1 queued w.rows
sent_twice_example =
    sent_twice courier 1 (codes "smtp quit: EOF") two_unheard (λ n. refl) refl
      two_unheard-TakesUnheard one_queued
