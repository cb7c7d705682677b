-- ===== src/Outbox/Queue.antt =====
-- internal/outbox/outbox.go: the operations of the queue.
use mathlib.Core.List.{reverse}
use mailbox_cli.Prelude.{
  ℕ, ◌+◌, Bool, true, ◌&&◌, ◌||◌, Option, none, some, List, [], ◌∷◌, map, Text, codes, text_eq,
  join, leb, ◌==◌, if◌then◌else◌, select, any_of, length, take,
}
use mailbox_cli.Outbox.Types.{
  State, queued, sending, sent, filed, held, state_eq, Item, Row, not_found, bad_state,
  already_sent,
}
use mailbox_cli.Outbox.Store.{M, pure, raise, ◌>>=◌, ◌>>◌, exec, query, insert}

-- UPDATE … WHERE id = ?
unfoldable pub update : ℕ → (Row → Row) → List Row → List Row
update id f [] = []
update id f (r ∷ rows) = let rest = update id f rows in if r.id == id then f r ∷ rest else r ∷ rest

-- DELETE … WHERE id = ?
unfoldable pub delete : ℕ → List Row → List Row
delete id [] = []
delete id (r ∷ rows) = let rest = delete id rows in if r.id == id then rest else r ∷ rest

unfoldable pub row_of : Item → ℕ → ℕ → Row
row_of it id now = record {
  id = id;
  account = it.account;
  message_key = it.message_key;
  from_addr = it.sender;
  recipients = join (codes " ") it.recipients;
  subject = it.subject;
  raw = it.raw;
  state = queued;
  attempts = 0;
  last_error = [];
  created_at = now;
  sent_at = none;
  filed_at = none;
  box = [];
  uid = 0;
  not_before = it.not_before;
}

unfoldable pub enqueue : Item → M ℕ
enqueue it = insert (row_of it)

-- WHERE id = ?
unfoldable pub first : List Item → M Item
first [] = raise not_found
first (it ∷ _) = pure it

unfoldable pub get : ℕ → M Item
get id = do items ← query (λ _. select (λ r. r.id == id)); first items

-- not_before IS NULL OR not_before <= ?
abbrev pub due : ℕ → Option ℕ → Bool
due now none = true
due now (some t) = leb t now

unfoldable pub by_state : State → M (List Item)
by_state s = query (λ now. select (λ r. state_eq r.state s && due now r.not_before))

unfoldable pub by_state_and_account : State → Text → M (List Item)
by_state_and_account s [] = by_state s
by_state_and_account s (c ∷ cs) =
    query (λ now.
      select (λ r. state_eq r.state s && text_eq r.account (c ∷ cs) && due now r.not_before))

unfoldable pub pending_for : Text → M (List Item)
pending_for account = by_state_and_account queued account

unfoldable pub unfiled_for : Text → M (List Item)
unfiled_for account = by_state_and_account sent account

-- A transition is refused unless it starts where it says.
unfoldable pub move : ℕ → List State → (ℕ → Row → Row) → M (Unit {0})
move id from f = do
  it ← get id
  if any_of (state_eq it.state) from
      then exec (λ now. update id (f now))
      else raise (bad_state id it.state from)

-- The columns that each statement sets, at the time of the statement.
abbrev pub as_sending : ℕ → Row → Row
as_sending now r = record r { state = sending; attempts = r.attempts + 1; last_error = [] }

abbrev pub as_sent : ℕ → Row → Row
as_sent now r = record r { state = sent; sent_at = some now }

abbrev pub as_filed : Text → ℕ → ℕ → Row → Row
as_filed box uid now r = record r { state = filed; filed_at = some now; box = box; uid = uid }

-- The text of an error, empty where there is none.
abbrev pub cause_text : Option Text → Text
cause_text none = []
cause_text (some t) = t

abbrev pub as_requeued : Option Text → Row → Row
as_requeued cause r = record r { state = queued; last_error = cause_text cause }

abbrev pub with_error : Option Text → Row → Row
with_error cause r = record r { last_error = cause_text cause }

abbrev pub as_retried : ℕ → Row → Row
as_retried now r = record r { state = queued; last_error = [] }

unfoldable pub claim : ℕ → M (Unit {0})
claim id = move id (queued ∷ []) as_sending

unfoldable pub mark_sent : ℕ → M (Unit {0})
mark_sent id = move id (sending ∷ []) as_sent

unfoldable pub mark_filed : ℕ → Text → ℕ → M (Unit {0})
mark_filed id box uid = exec (λ now. update id (as_filed box uid now))

unfoldable pub requeue : ℕ → Option Text → M (Unit {0})
requeue id cause = exec (λ _. update id (as_requeued cause))

unfoldable pub note_error : ℕ → Option Text → M (Unit {0})
note_error id cause = exec (λ _. update id (with_error cause))

abbrev pub interrupted : Text
interrupted =
    codes "the daemon stopped while this was at the smtp server; it may have been delivered"

-- UPDATE … WHERE state = 'sending'
unfoldable pub hold : Row → Row
hold r = if state_eq r.state sending then record r { state = held; last_error = interrupted } else r

abbrev pub as_held : Item → Item
as_held i = record i { state = held }

unfoldable pub hold_found : List Item → M (List Item)
hold_found [] = pure []
hold_found (it ∷ items) = do exec (λ _. map hold); pure (map as_held (it ∷ items))

unfoldable pub hold_interrupted : M (List Item)
hold_interrupted = do items ← by_state sending; hold_found items

unfoldable pub retry : ℕ → M (Unit {0})
retry id = move id (held ∷ queued ∷ []) as_retried

unfoldable pub cancel : ℕ → M (Unit {0})
cancel id = do
  it ← get id
  if state_eq it.state sent || state_eq it.state filed
      then raise (already_sent id)
      else exec (λ _. delete id)

-- ORDER BY id DESC LIMIT ?
unfoldable pub list_items : ℕ → M (List Item)
list_items limit =
    let n = if limit == 0 then 50 else limit in query (λ _ rows. take n (reverse rows))

-- SELECT count(*)
unfoldable pub unsent : Text → M ℕ
unsent account = do
  items ← query (λ _. select (λ r.
      text_eq r.account account
      && (state_eq r.state queued || state_eq r.state sent || state_eq r.state held)))
  pure (length items)
