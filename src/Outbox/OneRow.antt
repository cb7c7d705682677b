-- ===== src/Outbox/OneRow.antt =====
-- internal/outbox/outbox.go: what a statement about one row does, where no statement fails.
use mailbox_cli.Prelude.{
  ℕ, suc, ◌≡◌, ◌≢◌, refl, ap, ◌∙◌, true, false, List, [], ◌∷◌, map, arith, ◌==◌, select, any_of,
}
use mailbox_cli.Outbox.Types.{State, state_eq, Row, World}
use mailbox_cli.Outbox.Store.{ok, exec, query, now, scan}
use mailbox_cli.Outbox.Queue.{update, get, first, move}

-- The table has a row with the id, and the first that has it is in the state.
pub record HasRow (id : ℕ) (s : State) (rows : List Row) : Type 0 where
  pub row : Row
  pub more : List Row
  pub picked : select (λ r. r.id == id) rows ≡ row ∷ more
  pub in_state : row.state ≡ s

-- The world after statements, with other rows.
abbrev pub after : World → List Row → ℕ → World
after w rows n = record w { rows = rows; statements = n }

select-update :
    (id : ℕ) (f : Row → Row) (rows : List Row)
    → ((r : Row) → (f r).id ≡ r.id)
    → select (λ r. r.id == id) (update id f rows) ≡ map f (select (λ r. r.id == id) rows)
unfolding update
select-update id f [] same = refl
select-update id f (r ∷ rows) same = ground (arith, select-update id f rows same, same r)

pub update-HasRow :
    (id : ℕ) (s s' : State) (f : Row → Row) (rows : List Row)
    → ((r : Row) → (f r).id ≡ r.id)
    → ((r : Row) → r.state ≡ s → (f r).state ≡ s')
    → HasRow id s rows
    → HasRow id s' (update id f rows)
update-HasRow id s s' f rows same turns has = record {
  row = f has.row;
  more = map f has.more;
  picked = select-update id f rows same ∙ ap (map f) has.picked;
  in_state = turns has.row has.in_state;
}

-- No statement fails.
abbrev pub IsSound : World → Type 0
IsSound w = (n : ℕ) → w.env.fails n ≡ false

pub get_lem :
    (id : ℕ) (s : State) (w : World)
    → IsSound w
    → (has : HasRow id s w.rows) → get id w ≡ (ok (scan has.row), after w w.rows (suc w.statements))
unfolding get first query
get_lem id s w sound has = rw (sound w.statements, has.picked) refl

pub exec_lem :
    (change : ℕ → List Row → List Row) (w : World)
    → IsSound w
    → exec change w ≡ (ok tt, after w (change (now w) w.rows) (suc w.statements))
unfolding exec
exec_lem change w sound = rw (sound w.statements) refl

pub move_lem :
    (id : ℕ) (s : State) (from : List State) (f : ℕ → Row → Row) (w : World)
    → IsSound w
    → HasRow id s w.rows
    → any_of (state_eq s) from ≡ true
    → move id from f w ≡ (
      ok tt,
      after w (update id (f (w.env.clock (suc w.statements))) w.rows) (suc (suc w.statements)),
    )
unfolding move
move_lem id s from f w sound has allowed = rw (get_lem id s w sound has) (
    unfold scan in
    rw (has.in_state, allowed)
      (exec_lem (λ now. update id (f now)) (after w w.rows (suc w.statements)) sound))

-- What an operation on one row leaves: the environment, and the rows with other ids.
pub record From (id : ℕ) (start w : World) : Type 0 where
  pub env : w.env ≡ start.env
  pub ids : map (λ (r : Row). r.id) w.rows ≡ map (λ (r : Row). r.id) start.rows
  pub others :
      (j : ℕ) → j ≢ id → select (λ r. r.id == j) w.rows ≡ select (λ r. r.id == j) start.rows

update_others :
    (id j : ℕ) (f : Row → Row) (rows : List Row)
    → ((r : Row) → (f r).id ≡ r.id)
    → j ≢ id
    → select (λ r. r.id == j) (update id f rows) ≡ select (λ r. r.id == j) rows
unfolding update
update_others id j f [] same ne = refl
update_others id j f (r ∷ rows) same ne =
    ground (arith, update_others id j f rows same ne, same r, ne)

ids-update :
    (id : ℕ) (f : Row → Row) (rows : List Row)
    → ((r : Row) → (f r).id ≡ r.id)
    → map (λ (r : Row). r.id) (update id f rows) ≡ map (λ (r : Row). r.id) rows
unfolding update
ids-update id f [] same = refl
ids-update id f (r ∷ rows) same = ground (arith, ids-update id f rows same, same r)

pub update-From :
    (id : ℕ) (start w : World) (f : Row → Row) (n : ℕ)
    → ((r : Row) → (f r).id ≡ r.id)
    → From id start w
    → From id start (after w (update id f w.rows) n)
update-From id start w f n same from = record {
  env = from.env;
  ids = ids-update id f w.rows same ∙ from.ids;
  others = λ j ne. update_others id j f w.rows same ne ∙ from.others j ne;
}

-- The same with another count of statements.
pub tick-From :
    (id : ℕ) (start w : World) (n : ℕ) → From id start w → From id start (after w w.rows n)
tick-From id start w n from = record { env = from.env; ids = from.ids; others = from.others }

pub unchanged : (id : ℕ) (w : World) → From id w w
unchanged id w = record { env = refl; ids = refl; others = λ j ne. refl }
