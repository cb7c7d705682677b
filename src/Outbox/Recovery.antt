-- ===== src/Outbox/Recovery.antt =====
-- internal/outbox/outbox.go, HoldInterrupted: what a start of the daemon does to the mails that a
-- dead process left at the submission server.
use mailbox_cli.Prelude.{
  ℕ, suc, ◌<◌, ltb, not, ◌≡◌, ◌≢◌, refl, ap, subst, inl, inr, Bool, true, false, ◌&&◌, Option, none,
  some, List, [], ◌∷◌, map, Text, arith, if◌then◌else◌, select, any_of, All, Bool-cases,
}
use mailbox_cli.Outbox.Types.{State, queued, sending, sent, filed, held, state_eq, Item, Row, World}
use mailbox_cli.Outbox.Store.{ok, exec, query, now, scan}
use mailbox_cli.Outbox.Queue.{
  by_state, due, hold, hold_found, as_held, hold_interrupted, interrupted,
}
use mailbox_cli.Outbox.Courier.{recover}

-- The rows that HoldInterrupted reads.
abbrev left_over : ℕ → Row → Bool
left_over t r = state_eq r.state sending && due t r.not_before

select_none : (p : Row → Bool) (rows : List Row) → All (λ r. p r ≡ false) rows → select p rows ≡ []
select_none p [] h = refl
select_none p (r ∷ rows) h = ground (arith, select_none p rows h.1)

-- A row that was scheduled for later.
abbrev pub Scheduled : ℕ → Option ℕ → Type 0
Scheduled t none = ⊥
Scheduled t (some later) = t < later

not_due : (t : ℕ) (o : Option ℕ) → Scheduled t o → due t o ≡ false
not_due t none h = absurd h
not_due t (some later) h = ground arith

none_left :
    (t : ℕ) (rows : List Row)
    → All (λ r. r.state ≡ sending → Scheduled t r.not_before) rows
    → All (λ r. left_over t r ≡ false) rows
none_left t [] h = tt
none_left t (r ∷ rows) h = (one r.state refl, none_left t rows h.1)
  where
    one : (s : State) → r.state ≡ s → left_over t r ≡ false
    one sending e = rw (e, not_due t r.not_before (h.0 e))
    one _ e = rw e

-- If each mail that a dead process left at the submission server is scheduled for later, then a
-- start of the daemon holds none of them: the table stays as it is, and the mails stay in state
-- sending.
pub recover_misses-Scheduled :
    (w : World)
    → All (λ r. r.state ≡ sending → Scheduled (now w) r.not_before) w.rows
    → (recover w).1.rows ≡ w.rows
unfolding recover hold_interrupted by_state query hold_found
recover_misses-Scheduled w h =
    let e = select_none (left_over (now w)) w.rows (none_left (now w) w.rows h) in ground (arith, e)

hold_stops : (rows : List Row) → All (λ r. state_eq r.state sending ≡ false) (map hold rows)
unfolding hold
hold_stops [] = tt
hold_stops (r ∷ rows) = (ground arith, hold_stops rows)

select_some :
    (p : Row → Bool) (rows : List Row)
    → any_of p rows ≡ true
    → (r : Row) × (more : List Row) × (select p rows ≡ r ∷ more)
select_some p [] h = cc
select_some p (r ∷ rows) h = elim (Bool-cases (p r)) [
  | inl e ↦ (r, select p rows, ground arith)
  | inr e ↦ let (x, more, q) = select_some p rows (ground arith) in (x, more, ground arith)
]

module _ (w : World) (sound : (n : ℕ) → w.env.fails n ≡ false)
    (some_due : any_of (left_over (now w)) w.rows ≡ true) where
  recover_result : (recover w).0 ≡ ok (map as_held (map scan (select (left_over (now w)) w.rows)))
  unfolding recover hold_interrupted by_state query hold_found exec
  recover_result =
      let (r, more, e) = select_some (left_over (now w)) w.rows some_due in
      ground (arith, sound w.statements, sound (suc w.statements), e)

  recover_rows : (recover w).1.rows ≡ map hold w.rows
  unfolding recover hold_interrupted by_state query hold_found exec
  recover_rows =
      let (r, more, e) = select_some (left_over (now w)) w.rows some_due in
      ground (arith, sound w.statements, sound (suc w.statements), e)

-- Its time has come, or it has none.
abbrev pub has_come : ℕ → Option ℕ → Bool
has_come t none = true
has_come t (some later) = not (ltb t later)

-- A row in state sending that is not scheduled for later.
abbrev pub was_interrupted : ℕ → Row → Bool
was_interrupted t r = state_eq r.state sending && has_come t r.not_before

-- What becomes of a row: one in state sending is held with the reason, any other is as it was.
pub record IsHeld (r r' : Row) : Type 0 where
  pub stopped : r.state ≡ sending → r' ≡ record r { state = held; last_error = interrupted }
  pub kept : r.state ≢ sending → r' ≡ r

-- The same for the rows in their order.
abbrev pub AreHeld : List Row → List Row → Type 0
AreHeld [] [] = Unit
AreHeld (r ∷ rows) (r' ∷ rows') = IsHeld r r' × AreHeld rows rows'
AreHeld _ _ = ⊥

abbrev pub name_of_item : Item → ℕ × Text
name_of_item i = (i.id, i.subject)

abbrev pub name_of_row : Row → ℕ × Text
name_of_row r = (r.id, r.subject)

-- The answer names the rows that were interrupted, with their subjects, and says that they are held.
pub record Names (t : ℕ) (rows : List Row) (items : List Item) : Type 0 where
  pub ids : map name_of_item items ≡ map name_of_row (select (was_interrupted t) rows)
  pub states : All (λ (i : Item). i.state ≡ held) items

hold-IsHeld : (r : Row) → IsHeld r (hold r)
unfolding hold
hold-IsHeld r = by_state_of r.state refl
  where
    by_state_of :
        (s : State)
        → r.state ≡ s
        → IsHeld r
            (if state_eq s sending then record r { state = held; last_error = interrupted } else r)
    by_state_of sending e = record { stopped = λ p. refl; kept = λ n. absurd (n e) }
    by_state_of queued e = record { stopped = λ p. absurd cc; kept = λ n. refl }
    by_state_of sent e = record { stopped = λ p. absurd cc; kept = λ n. refl }
    by_state_of filed e = record { stopped = λ p. absurd cc; kept = λ n. refl }
    by_state_of held e = record { stopped = λ p. absurd cc; kept = λ n. refl }

hold-AreHeld : (rows : List Row) → AreHeld rows (map hold rows)
hold-AreHeld [] = tt
hold-AreHeld (r ∷ rows) = (hold-IsHeld r, hold-AreHeld rows)

was_interrupted_lem : (t : ℕ) (r : Row) → was_interrupted t r ≡ left_over t r
was_interrupted_lem t r = by_time r.not_before refl
  where
    by_time : (o : Option ℕ) → r.not_before ≡ o → was_interrupted t r ≡ left_over t r
    by_time none e = ground (arith, e)
    by_time (some later) e = ground (arith, e)

as_held-ids :
    (rows : List Row) → map name_of_item (map as_held (map scan rows)) ≡ map name_of_row rows
unfolding scan
as_held-ids [] = refl
as_held-ids (r ∷ rows) = ap (◌∷◌ (r.id, r.subject)) (as_held-ids rows)

as_held-states : (items : List Item) → All (λ (i : Item). i.state ≡ held) (map as_held items)
as_held-states [] = tt
as_held-states (i ∷ items) = (refl, as_held-states items)

-- If no statement fails and some mail in state sending is not scheduled for later, then a start of the
-- daemon answers with the ids and the subjects of those mails, as held; every row that was in state
-- sending, scheduled or not, is held with the reason, every other row is as it was, and no row is in
-- state sending.
pub recover_holds :
    (w : World)
    → ((n : ℕ) → w.env.fails n ≡ false)
    → any_of (was_interrupted (now w)) w.rows ≡ true
    → ((items : List Item) × ((recover w).0 ≡ ok items) × Names (now w) w.rows items)
      × AreHeld w.rows (recover w).1.rows
      × All (λ r. state_eq r.state sending ≡ false) (recover w).1.rows
recover_holds w sound h =
    let same : was_interrupted (now w) ≡ left_over (now w) =
      λ i r. was_interrupted_lem (now w) r i in
    let h' : any_of (left_over (now w)) w.rows ≡ true =
      subst (λ p. any_of p w.rows ≡ true) same h in
    let found = map scan (select (left_over (now w)) w.rows) in
    (
      (
        map as_held found,
        recover_result w sound h',
        record {
          ids = rw same (as_held-ids (select (left_over (now w)) w.rows));
          states = as_held-states found;
        },
      ),
      rw (recover_rows w sound h') (hold-AreHeld w.rows),
      rw (recover_rows w sound h') (hold_stops w.rows),
    )
