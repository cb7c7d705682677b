-- ===== src/Outbox/Courier.antt =====
-- internal/outbox/courier.go: a mail goes to the submission server first, then its copy is filed.
use mailbox_cli.Prelude.{
  ℕ, suc, ◌+◌, Bool, true, false, ◌&&◌, ◌||◌, not, Option, none, some, List, [], ◌∷◌, ◌++◌, Text,
  codes, text_eq, ◌⊎◌, length, if◌then◌else◌, inl, inr,
}
use mailbox_cli.Outbox.Types.{
  State, queued, sent, state_eq, Item, not_queued, nil_transport, Error, World, Handed,
}
use mailbox_cli.Outbox.Store.{Result, ok, err, M, pure, raise, ◌>>=◌, ◌>>◌}
use mailbox_cli.Outbox.Queue.{
  get, claim, mark_sent, mark_filed, requeue, note_error, hold_interrupted, pending_for,
  unfiled_for,
}

-- What a courier is set up with: whether it has a transport and a filer, whose mail it carries
-- (empty is everybody's), and the folder for the copies (empty is none).
pub record Courier : Type 0 where
  pub has_transport : Bool
  pub has_filer : Bool
  pub account : Text
  pub sent_box : Text

-- Whether the server took a mail: a sending that succeeds says so, one that fails leaves it open.
unfoldable pub is_accepted : Option Text → Bool → Bool
is_accepted none taken = true
is_accepted (some _) taken = taken

unfoldable pub is_refused : Option Text → Bool
is_refused none = false
is_refused (some _) = true

abbrev pub handed_over : ℕ → Option Text → Bool → Handed
handed_over id answer taken = record {
  id = id;
  accepted = is_accepted answer taken;
  refused = is_refused answer;
}

-- Transport.Send: the answer is the environment's, and the log remembers what was handed over.
unfoldable pub submit : Item → M (Option Text)
submit it w =
    let answer = w.env.submit (length w.log) it.sender it.recipients it.raw in
    let taken = w.env.taken_anyway (length w.log) in
    (ok answer, record w { log = handed_over it.id answer taken ∷ w.log })

-- Filer.Append
unfoldable pub append : Text → Text → M (Text ⊎ ℕ)
append folder raw w = (
  ok (w.env.append w.appends folder (codes "\\Seen" ∷ []) raw),
  record w { appends = suc w.appends },
)

abbrev pub copy_failed : Text → Text
copy_failed cause = codes "sent, but the copy could not be filed: " ++ cause

-- What the filer answered is recorded: an error against the row, or where the copy is.
unfoldable pub record_copy : Courier → ℕ → Text ⊎ ℕ → M Item
record_copy c id (inl cause) = do note_error id (some (copy_failed cause)); get id
record_copy c id (inr uid) = do mark_filed id c.sent_box uid; get id

unfoldable pub file : Courier → ℕ → M Item
file c id = do
  it ← get id
  if not c.has_filer && c.has_transport
      then (do mark_filed id c.sent_box 0; get id)
      else if text_eq c.sent_box [] || not c.has_filer
      then pure it
      else (do answer ← append c.sent_box it.raw; record_copy c id answer)

-- After the submission server has answered: a refused mail goes back to the queue, an accepted
-- one is recorded before anything else.
unfoldable pub settle : Courier → ℕ → Option Text → M Item
settle c id (some refusal) = do requeue id (some refusal); get id
settle c id none = do mark_sent id; file c id

-- The switch of Deliver on the state of the row.
unfoldable pub deliver_as : Courier → ℕ → Item → State → M Item
deliver_as c id it queued =
    if c.has_transport
    then (do claim id; answer ← submit it; settle c id answer)
    else (do claim id; raise nil_transport)
deliver_as c id it sent = file c id
deliver_as c id it s = raise (not_queued id s)

unfoldable pub deliver : Courier → ℕ → M Item
deliver c id = do it ← get id; deliver_as c id it it.state

unfoldable pub recover : M (List Item)
recover = hold_interrupted

-- The first loop of Drain: an error is logged, and the next copy is tried.
unfoldable pub file_all : Courier → List Item → M (Unit {0})
file_all c [] w = (ok tt, w)
file_all c (it ∷ more) w = file_all c more (file c it.id w).1

-- What Drain returns: the number of mails sent, and an error or none.
abbrev pub Drained : Type 0
Drained = ℕ × Option Error

-- After one delivery of the second loop of Drain: it stops at an error, and at a mail that is
-- still queued.
unfoldable pub send_next : ℕ → Result Item × World → (World → Drained × World) → Drained × World
send_next n (err e, w) rest = ((n, some e), w)
send_next n (ok out, w) rest = if state_eq out.state queued then ((n, none), w) else rest w

-- The second loop of Drain, with the number of mails sent so far.
unfoldable pub send_all : Courier → ℕ → List Item → World → Drained × World
send_all c n [] w = ((n, none), w)
send_all c n (it ∷ more) w = send_next n (deliver c it.id w) (send_all c (n + 1) more)

unfoldable pub drain_found : Courier → Result (List Item) × World → Drained × World
drain_found c (err e, w) = ((0, some e), w)
drain_found c (ok pending, w) = send_all c 0 pending w

unfoldable pub drain_rest : Courier → Result (List Item) × World → Drained × World
drain_rest c (err e, w) = ((0, some e), w)
drain_rest c (ok unfiled, w) =
    let w' = (file_all c unfiled w).1 in drain_found c (pending_for c.account w')

unfoldable pub drain : Courier → World → Drained × World
drain c w = drain_rest c (unfiled_for c.account w)
