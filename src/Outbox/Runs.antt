-- ===== src/Outbox/Runs.antt =====
-- Rules for what holds of the queue and of the log after an operation of internal/outbox, whether
-- it returns or fails, whichever statements fail and whatever the servers answer.
use mailbox_cli.Prelude.{
  ℕ, Bool, true, false, ◌≡◌, refl, inl, inr, ◌⊎◌, Option, some, List, [], ◌∷◌, ◌++◌, suc, map, Text,
  length, codes, arith, ◌==◌, if◌then◌else◌, select, any_of, Bool-cases, subst,
}
use mailbox_cli.Outbox.Types.{State, state_eq, Error, Item, Row, Handed, World}
use mailbox_cli.Outbox.Store.{
  Result, ok, err, M, pure, raise, continue, ◌>>=◌, exec, query, insert, max_id, scan,
}
use mailbox_cli.Outbox.Queue.{get, first, move, update}
use mailbox_cli.Outbox.Courier.{submit, append, handed_over}
use mailbox_cli.Outbox.Rows.{row_at, select_row}

-- What is said of the table and of the log.
abbrev pub Assert : Type 1
Assert = List Row → List Handed → Type 0

abbrev pub Post : {A : Type 0} → (A → Assert) → Assert → Result A → Assert
Post Q E (ok a) rows log = Q a rows log
Post Q E (err e) rows log = E rows log

-- From a world where `P` holds, `m` ends where `Q` holds of its result, or fails where `E` holds.
pub record Runs {A : Type 0} (P : Assert) (m : M A) (Q : A → Assert) (E : Assert) : Type 0 where
  pub at : (w : World) → P w.rows w.log → Post Q E (m w).0 (m w).1.rows (m w).1.log

-- `P` implies `Q`, of every table and log.
abbrev pub ◌⇒◌ : Assert → Assert → Type 0
P ⇒ Q = (rows : List Row) (log : List Handed) → P rows log → Q rows log

infix 20 ◌⇒◌
module _ {A : Type 0} {P : Assert} {Q : A → Assert} {E : Assert} where
  pub Runs-pure : (a : A) → P ⇒ Q a → Runs P (pure a) Q E
  Runs-pure a k = record { at = λ w. k w.rows w.log }

  pub Runs-raise : (e : Error) → P ⇒ E → Runs P (raise e) Q E
  Runs-raise e k = record { at = λ w. k w.rows w.log }

  pub Runs-if :
      (b : Bool) (m n : M A)
      → (b ≡ true → Runs P m Q E)
      → (b ≡ false → Runs P n Q E)
      → Runs P (if b then m else n) Q E
  Runs-if true m n km kn = km refl
  Runs-if false m n km kn = kn refl

  pub Runs-pre : (P' : Assert) (m : M A) → P ⇒ P' → Runs P' m Q E → Runs P m Q E
  Runs-pre P' m k r = record { at = λ w h. r.at w (k w.rows w.log h) }

post_weaken :
    {A : Type 0} {Q Q' : A → Assert} {E E' : Assert}
    → ((a : A) → Q a ⇒ Q' a)
    → E ⇒ E'
    → (r : Result A) (rows : List Row) (log : List Handed) → Post Q E r rows log
    → Post Q' E' r rows log
post_weaken kq ke (ok a) rows log h = kq a rows log h
post_weaken kq ke (err e) rows log h = ke rows log h

pub Runs-post :
    {A : Type 0} {P E : Assert} {Q : A → Assert} (Q' : A → Assert) (E' : Assert) (m : M A)
    → Runs P m Q E
    → ((a : A) → Q a ⇒ Q' a)
    → E ⇒ E'
    → Runs P m Q' E'
Runs-post Q' E' m r kq ke = record {
  at = λ w h. post_weaken kq ke (m w).0 (m w).1.rows (m w).1.log (r.at w h);
}

continue_at :
    {A B : Type 0} {Q : B → Assert} {E : Assert} (R : A → Assert) (f : A → M B)
    → ((a : A) → Runs (R a) (f a) Q E)
    → (r : Result A) (w : World) → Post R E r w.rows w.log
    → Post Q E (continue r f w).0 (continue r f w).1.rows (continue r f w).1.log
continue_at R f kf (ok a) w h = (kf a).at w h
continue_at R f kf (err e) w h = h

module _ {A B : Type 0} {P : Assert} {Q : B → Assert} {E : Assert} where
  pub Runs-bind :
      (R : A → Assert) (m : M A) (f : A → M B)
      → Runs P m R E
      → ((a : A) → Runs (R a) (f a) Q E)
      → Runs P (m >>= f) Q E
  Runs-bind R m f km kf = record { at = λ w h. continue_at R f kf (m w).0 (m w).1 (km.at w h) }

module _ {P : Assert} {E : Assert} where
  pub Runs-exec :
      {Q : Unit {0} → Assert} (change : ℕ → List Row → List Row)
      → P ⇒ E
      → ((now : ℕ) (rows : List Row) (log : List Handed) → P rows log → Q tt (change now rows) log)
      → Runs P (exec change) Q E
  unfolding exec
  Runs-exec change ke kq = record {
    at = λ w h. elim (Bool-cases (w.env.fails w.statements)) [
      | inl e ↦ rw e (ke w.rows w.log h)
      | inr e ↦ rw e (kq (w.env.clock w.statements) w.rows w.log h)
    ];
  }

  pub Runs-query :
      {Q : List Item → Assert} (pick : ℕ → List Row → List Row)
      → P ⇒ E
      → ((now : ℕ) (rows : List Row) (log : List Handed)
          → P rows log
          → Q (map scan (pick now rows)) rows log)
      → Runs P (query pick) Q E
  unfolding query
  Runs-query pick ke kq = record {
    at = λ w h. elim (Bool-cases (w.env.fails w.statements)) [
      | inl e ↦ rw e (ke w.rows w.log h)
      | inr e ↦ rw e (kq (w.env.clock w.statements) w.rows w.log h)
    ];
  }

  pub Runs-insert :
      {Q : ℕ → Assert} (make : ℕ → ℕ → Row)
      → P ⇒ E
      → ((now : ℕ) (rows : List Row) (log : List Handed)
          → P rows log
          → let id = suc (max_id rows) in Q id (rows ++ make id now ∷ []) log)
      → Runs P (insert make) Q E
  unfolding insert
  Runs-insert make ke kq = record {
    at = λ w h. elim (Bool-cases (w.env.fails w.statements)) [
      | inl e ↦ rw e (ke w.rows w.log h)
      | inr e ↦ rw e (kq (w.env.clock w.statements) w.rows w.log h)
    ];
  }

  pub Runs-submit :
      {Q : Option Text → Assert} (it : Item)
      → ((answer : Option Text) (taken : Bool) (rows : List Row) (log : List Handed)
          → P rows log
          → Q answer rows (handed_over it.id answer taken ∷ log))
      → Runs P (submit it) Q E
  unfolding submit
  Runs-submit it k = record {
    at = λ w h.
        k (w.env.submit (length w.log) it.sender it.recipients it.raw)
          (w.env.taken_anyway (length w.log)) w.rows w.log h;
  }

  pub Runs-append :
      {Q : Text ⊎ ℕ → Assert} (folder raw : Text)
      → ((answer : Text ⊎ ℕ) → P ⇒ Q answer)
      → Runs P (append folder raw) Q E
  unfolding append
  Runs-append folder raw k = record {
    at = λ w. k (w.env.append w.appends folder (codes "\\Seen" ∷ []) raw) w.rows w.log;
  }

-- The item is the row with that id.
abbrev pub Found : ℕ → Item → List Row → Type 0
Found id it rows = (r : Row) × (row_at id rows ≡ some r) × (it ≡ scan r)

module _ (P : Assert) (id : ℕ) where
  abbrev Picked : List Item → Assert
  Picked items rows log = P rows log × (items ≡ map scan (select (λ r. r.id == id) rows))

  first_item :
      (items : List Item)
      → Runs (Picked items) (first items) (λ it rows log. P rows log × Found id it rows) P
  unfolding first
  first_item [] = record { at = λ w h. h.0 }
  first_item (it ∷ more) = record {
    at = λ w h. elim (select_row id w.rows) [
      | inl (p, q) ↦ cc
      | inr (r, rest, p, q) ↦ (h.0, (r, q, ground arith))
    ];
  }

  -- Get returns the row with the id, and changes nothing.
  pub Runs-get : Runs P (get id) (λ it rows log. P rows log × Found id it rows) P
  unfolding get
  Runs-get =
      Runs-bind Picked (query (λ _. select (λ r. r.id == id))) _
        (Runs-query _ (λ rows log h. h) (λ now rows log h. (h, refl))) first_item

-- A transition is written over a row that is there and starts where it says, or it is refused and
-- changes nothing.
module _ {P : Assert} {E : Assert} (id : ℕ) (from : List State) (f : ℕ → Row → Row) where
  pub Runs-move :
      {Q : Unit {0} → Assert}
      → P ⇒ E
      → ((now : ℕ) (rows : List Row) (log : List Handed) (r : Row)
          → P rows log
          → row_at id rows ≡ some r
          → any_of (state_eq r.state) from ≡ true
          → Q tt (update id (f now) rows) log)
      → Runs P (move id from f) Q E
  unfolding move scan
  Runs-move ke kq =
      Runs-bind _ (get id) _ (Runs-post _ E (get id) (Runs-get P id) (λ it rows log h. h) ke) λ it.
        Runs-if (any_of (state_eq it.state) from) _ _
          (λ ok_state.
            Runs-exec _ (λ rows log h. ke rows log h.0)
              (λ now rows log h.
                kq now rows log (h.1).0 h.0 (h.1).1
                  (subst (λ (i : Item). any_of (state_eq i.state) from ≡ true) (h.1).2 ok_state)))
          (λ _. Runs-raise _ (λ rows log h. ke rows log h.0))

-- A fact of the assertion that is not about the table is a hypothesis.
pub Runs-fact :
    {A : Type 0} {P E : Assert} {Q : A → Assert} {F : Type 0} (m : M A)
    → (F → Runs P m Q E)
    → Runs (λ rows log. P rows log × F) m Q E
Runs-fact m k = record { at = λ w h. (k h.1).at w h.0 }
