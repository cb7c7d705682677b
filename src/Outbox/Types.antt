-- ===== src/Outbox/Types.antt =====
-- internal/outbox/outbox.go: the data of the send queue. One SQLite table is the list of its rows
-- in the order of their ids. Which statements fail, what the clock says and what the two servers
-- answer comes from the environment, by the number of the statement or call. Instants are seconds.
use mailbox_cli.Prelude.{ℕ, Bool, true, false, Option, List, Text, ◌⊎◌}

pub data State : Type 0 where
  queued sending sent filed held : State

abbrev pub state_eq : State → State → Bool
state_eq queued queued = true
state_eq sending sending = true
state_eq sent sent = true
state_eq filed filed = true
state_eq held held = true
state_eq _ _ = false

-- One mail in the queue, as a caller reads it. `none` is the zero time.
pub record Item : Type 0 where
  pub id : ℕ
  pub account : Text
  pub message_key : Text
  pub sender : Text
  pub recipients : List Text
  pub subject : Text
  pub raw : Text
  pub state : State
  pub attempts : ℕ
  pub last_error : Text
  pub created_at : ℕ
  pub sent_at : Option ℕ
  pub filed_at : Option ℕ
  pub box : Text
  pub uid : ℕ
  pub not_before : Option ℕ

-- One row of the table, which keeps the recipients as one text.
pub record Row : Type 0 where
  pub id : ℕ
  pub account : Text
  pub message_key : Text
  pub from_addr : Text
  pub recipients : Text
  pub subject : Text
  pub raw : Text
  pub state : State
  pub attempts : ℕ
  pub last_error : Text
  pub created_at : ℕ
  pub sent_at : Option ℕ
  pub filed_at : Option ℕ
  pub box : Text
  pub uid : ℕ
  pub not_before : Option ℕ

-- What an operation may fail with.
pub data Error : Type 0 where
  database not_found nil_transport : Error
  bad_state : ℕ → State → List State → Error
  already_sent : ℕ → Error
  not_queued : ℕ → State → Error

-- The world around the queue: whether the n-th statement fails, what the clock says at it, what
-- the sending of the n-th mail answers (`none` is a success), whether the server took the n-th mail
-- though the sending ended in an error, as when the connection is lost after the server said that it
-- has the mail, and what the n-th append answers (an error, or the uid of the copy).
pub record Env : Type 0 where
  pub fails : ℕ → Bool
  pub clock : ℕ → ℕ
  pub submit : ℕ → Text → List Text → Text → Option Text
  pub taken_anyway : ℕ → Bool
  pub append : ℕ → Text → List Text → Text → Text ⊎ ℕ

-- A mail that was handed to the submission server: its row, whether the server took it, and whether
-- the sending ended in an error.
pub record Handed : Type 0 where
  pub id : ℕ
  pub accepted : Bool
  pub refused : Bool

pub record World : Type 0 where
  pub env : Env
  pub rows : List Row
  pub statements : ℕ
  pub appends : ℕ
  pub log : List Handed  -- the newest first
