-- ===== src/Outbox/Draining.antt =====
-- internal/outbox/courier.go, Drain: what is queued and due is sent.
use mailbox_cli.Prelude.{
  ℕ, suc, ◌≡◌, ◌≢◌, refl, sym, ap, ◌∙◌, subst, Bool, true, false, ◌&&◌, none, List, [], ◌∷◌, map,
  Text, text_eq, arith, ◌==◌, select, All,
}
use mailbox_cli.Outbox.Types.{State, queued, sending, sent, filed, held, state_eq, Item, Row, World}
use mailbox_cli.Outbox.Store.{ok, query, now, scan}
use mailbox_cli.Outbox.Queue.{due, by_state, by_state_and_account, pending_for, unfiled_for}
use mailbox_cli.Outbox.Courier.{
  Courier, Drained, file, file_all, send_all, drain_found, drain_rest, drain,
}
use mailbox_cli.Outbox.OneRow.{HasRow, IsSound, From, after, unchanged}
use mailbox_cli.Outbox.Delivery.{TakesAll, file-IsDelivered}
use mailbox_cli.Outbox.Sending.{IsOut, AreApart, send_all-AreSent, carries_over}
use mailbox_cli.Outbox.Unique.{holds_of, AreUnique, select-HasRow, select-AreApart}

-- Uniqueness is of the ids.
all_ids :
    (id : ℕ) (rows rows' : List Row)
    → map (λ (r : Row). r.id) rows' ≡ map (λ (r : Row). r.id) rows
    → All (λ (x : Row). x.id ≢ id) rows
    → All (λ (x : Row). x.id ≢ id) rows'
all_ids id [] [] e h = tt
all_ids id (r ∷ rows) [] e h = tt
all_ids id [] (r' ∷ rows') e h = cc
all_ids id (r ∷ rows) (r' ∷ rows') e (ne, more) =
    ((λ q. ne (ground (arith, e, q))), all_ids id rows rows' (ground (arith, e)) more)

unique_ids :
    (rows rows' : List Row)
    → map (λ (r : Row). r.id) rows' ≡ map (λ (r : Row). r.id) rows
    → AreUnique rows
    → AreUnique rows'
unique_ids [] [] e u = tt
unique_ids (r ∷ rows) [] e u = tt
unique_ids [] (r' ∷ rows') e u = cc
unique_ids (r ∷ rows) (r' ∷ rows') e (ne, u) = (
  subst (λ i. All (λ (x : Row). x.id ≢ i) rows') (ground (arith, e))
      (all_ids r.id rows rows' (ground (arith, e)) ne),
  unique_ids rows rows' (ground (arith, e)) u,
)

-- What filing some copies leaves.
record AreFiled (items : List Item) (start w : World) : Type 0 where
  env : w.env ≡ start.env
  ids : map (λ (r : Row). r.id) w.rows ≡ map (λ (r : Row). r.id) start.rows
  others :
      (j : ℕ)
      → All (λ (it : Item). it.id ≢ j) items
      → select (λ r. r.id == j) w.rows ≡ select (λ r. r.id == j) start.rows

still_sent :
    (id : ℕ) (start w : World) (items : List Item)
    → From id start w
    → All (λ (it : Item). it.id ≢ id) items
    → All (λ it. HasRow it.id sent start.rows) items
    → All (λ it. HasRow it.id sent w.rows) items
still_sent id start w [] from ne has = tt
still_sent id start w (it ∷ items) from (ne, more) (h, has) = (
  carries_over it.id sent start.rows w.rows (from.others it.id ne) h,
  still_sent id start w items from more has,
)

file_all-AreFiled :
    (c : Courier) (items : List Item) (w : World)
    → IsSound w
    → All (λ it. HasRow it.id sent w.rows) items
    → AreApart items
    → AreFiled items w (file_all c items w).1
unfolding file_all
file_all-AreFiled c [] w sound has apart = record { env = refl; ids = refl; others = λ j ne. refl }
file_all-AreFiled c (it ∷ items) w sound (h, has) (ne, apart) =
    let d = file-IsDelivered c it.id w w (unchanged it.id w) sound h in
    let w' = (file c it.id w).1 in
    let sound' : IsSound w' = subst (λ e. (k : ℕ) → e.fails k ≡ false) (sym d.from.env) sound in
    let rest =
      file_all-AreFiled c items w' sound' (still_sent it.id w w' items d.from ne has) apart in
    record {
      env = rest.env ∙ d.from.env;
      ids = rest.ids ∙ d.from.ids;
      others = λ j nj. rest.others j nj.1 ∙ d.from.others j (λ e. nj.0 (sym e));
    }

-- The rows that the queries pick: of a state and an account, which is empty for all, and due.
abbrev is_picked : State → Text → ℕ → Row → Bool
is_picked s [] now r = state_eq r.state s && due now r.not_before
is_picked s (c ∷ cs) now r =
    state_eq r.state s && text_eq r.account (c ∷ cs) && due now r.not_before

-- A courier that carries everybody's mail, or that of the row's account.
abbrev pub Carries : Text → Row → Type 0
Carries [] r = Unit
Carries (c ∷ cs) r = text_eq r.account (c ∷ cs) ≡ true

picked_now :
    (account : Text) (now : ℕ) (r : Row)
    → r.state ≡ queued
    → Carries account r
    → r.not_before ≡ none
    → is_picked queued account now r ≡ true
picked_now [] now r s a n = rw (s, n) refl
picked_now (c ∷ cs) now r s a n = rw (s, a, n) refl

state_eq_sound : (a b : State) → state_eq a b ≡ true → a ≡ b
state_eq_sound queued queued h = refl
state_eq_sound sending sending h = refl
state_eq_sound sent sent h = refl
state_eq_sound filed filed h = refl
state_eq_sound held held h = refl
state_eq_sound _ _ h = cc

picked_state :
    (s : State) (account : Text) (now : ℕ) (r : Row)
    → is_picked s account now r ≡ true
    → r.state ≡ s
picked_state s [] now r h = state_eq_sound r.state s (ground (arith, h))
picked_state s (c ∷ cs) now r h = state_eq_sound r.state s (ground (arith, h))

-- What is read where no statement fails.
abbrev read : State → Text → World → List Item
read s account w = map scan (select (is_picked s account (now w)) w.rows)

reads :
    (s : State) (account : Text) (w : World)
    → IsSound w
    → by_state_and_account s account w ≡ (ok (read s account w), after w w.rows (suc w.statements))
unfolding by_state_and_account by_state query
reads s [] w sound = rw (sound w.statements) refl
reads s (c ∷ cs) w sound = rw (sound w.statements) refl

-- A queued row is not among those that are sent.
not_among :
    (id : ℕ) (rows : List Row) (items : List Item)
    → HasRow id queued rows
    → All (λ it. HasRow it.id sent rows) items
    → All (λ (it : Item). it.id ≢ id) items
not_among id rows [] has h = tt
not_among id rows (it ∷ items) has (h, hs) = ((λ e. conflict e), not_among id rows items has hs)
  where
    conflict : it.id ≢ id
    conflict e = ground (
      arith,
      h.in_state,
      has.in_state,
      sym h.picked ∙ ap (λ i. select (λ r. r.id == i) rows) e ∙ has.picked,
    )

-- If no statement fails, the courier has a transport, the submission server takes every mail, and no two
-- rows have one id, then a drain meets no error, and a queued mail that is the courier's to carry and
-- is not scheduled is sent or filed afterwards.
pub drain-IsOut :
    (c : Courier) (id : ℕ) (w : World)
    → IsSound w
    → c.has_transport ≡ true
    → TakesAll w
    → AreUnique w.rows
    → (has : HasRow id queued w.rows) → Carries c.account has.row
    → has.row.not_before ≡ none
    → ((drain c w).0.1 ≡ none) × IsOut id (drain c w).1.rows
unfolding drain drain_rest drain_found unfiled_for pending_for
drain-IsOut c id w sound transport takes unique has mine unscheduled =
    let unfiled = read sent c.account w in
    let w1 = after w w.rows (suc w.statements) in
    let all_sent =
      select-HasRow sent (is_picked sent c.account (now w)) w.rows
        (picked_state sent c.account (now w)) unique in
    let f =
      file_all-AreFiled c unfiled w1 sound all_sent
        (select-AreApart (is_picked sent c.account (now w)) w.rows unique) in
    let w2 = (file_all c unfiled w1).1 in
    let sound2 : IsSound w2 = subst (λ e. (k : ℕ) → e.fails k ≡ false) (sym f.env) sound in
    let takes2 : TakesAll w2 =
      subst (λ e. (k : ℕ) (a : Text) (b : List Text) (t : Text) → e.submit k a b t ≡ none)
        (sym f.env) takes in
    let unique2 = unique_ids w.rows w2.rows f.ids unique in
    let same = f.others id (not_among id w.rows unfiled has all_sent) in
    let pending = read queued c.account w2 in
    let w3 = after w2 w2.rows (suc w2.statements) in
    let s =
      send_all-AreSent c transport 0 pending w3 sound2 takes2
        (select-HasRow queued (is_picked queued c.account (now w2)) w2.rows
          (picked_state queued c.account (now w2)) unique2)
        (select-AreApart (is_picked queued c.account (now w2)) w2.rows unique2) in
    rw (reads sent c.account w sound, reads queued c.account w2 sound2)
      (
        ap (λ (x : Drained). x.1) s.answer,
        holds_of (λ i. IsOut i (send_all c 0 pending w3).1.rows)
            (is_picked queued c.account (now w2)) id w2.rows has.row has.more (same ∙ has.picked)
            (picked_now c.account (now w2) has.row has.in_state mine unscheduled) s.out,
      )
