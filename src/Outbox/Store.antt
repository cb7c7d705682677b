-- ===== src/Outbox/Store.antt =====
-- Operations on the queue as actions: what was written before an error stays written.
use mailbox_cli.Prelude.{max, [], ◌∷◌, ◌++◌, ℕ, suc, List, map, fields, if◌then◌else◌}
use mailbox_cli.Outbox.Types.{Item, Row, Error, database, World}

pub data Result (A : Type 0) : Type 0 where
  ok : A → Result A
  err : Error → Result A

abbrev pub M : Type 0 → Type 0
M A = World → Result A × World

abbrev pub continue : {A B : Type 0} → Result A → (A → M B) → M B
continue (ok a) f w = f a w
continue (err e) f w = (err e, w)

module _ {A : Type 0} where
  abbrev pub pure : A → M A
  pure a w = (ok a, w)

  abbrev pub raise : Error → M A
  raise e w = (err e, w)

infixl 5 ◌>>=◌ ◌>>◌
abbrev pub ◌>>=◌ : {A B : Type 0} → M A → (A → M B) → M B
◌>>=◌ m f w = let (r, w') = m w in continue r f w'

abbrev pub ◌>>◌ : {B : Type 0} → M (Unit {0}) → M B → M B
m >> k = m >>= λ _. k

-- time.Now(), at the statement that uses it
abbrev pub now : World → ℕ
now w = w.env.clock w.statements

-- db.Exec: a statement that fails changes nothing.
unfoldable pub exec : (ℕ → List Row → List Row) → M (Unit {0})
exec change w =
    if w.env.fails w.statements
    then (err database, record w { statements = suc w.statements })
    else (ok tt, record w { rows = change (now w) w.rows; statements = suc w.statements })

-- rows.Scan: the recipients are read back as the words of one text.
unfoldable pub scan : Row → Item
scan r = record {
  id = r.id;
  account = r.account;
  message_key = r.message_key;
  sender = r.from_addr;
  recipients = fields r.recipients;
  subject = r.subject;
  raw = r.raw;
  state = r.state;
  attempts = r.attempts;
  last_error = r.last_error;
  created_at = r.created_at;
  sent_at = r.sent_at;
  filed_at = r.filed_at;
  box = r.box;
  uid = r.uid;
  not_before = r.not_before;
}

-- query: what a SELECT picks from the table, scanned.
unfoldable pub query : (ℕ → List Row → List Row) → M (List Item)
query pick w =
    if w.env.fails w.statements
    then (err database, record w { statements = suc w.statements })
    else (ok (map scan (pick (now w) w.rows)), record w { statements = suc w.statements })

-- The largest id of the table.
unfoldable pub max_id : List Row → ℕ
max_id [] = 0
max_id (r ∷ rows) = max r.id (max_id rows)

-- INSERT, with LastInsertId: SQLite gives a new row the id after the largest.
unfoldable pub insert : (ℕ → ℕ → Row) → M ℕ
insert make w =
    if w.env.fails w.statements
    then (err database, record w { statements = suc w.statements })
    else (
      ok (suc (max_id w.rows)),
      record w {
        rows = w.rows ++ make (suc (max_id w.rows)) (now w) ∷ [];
        statements = suc w.statements;
      },
    )
