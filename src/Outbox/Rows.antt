-- ===== src/Outbox/Rows.antt =====
-- The rows of the send queue by id: what each statement of internal/outbox/outbox.go leaves at
-- every id.
use mailbox_cli.Prelude.{
  ℕ, ◌≤◌, max, ◌≡◌, refl, ◌⊎◌, inl, inr, Option, none, some, List, [], ◌∷◌, ◌++◌, map, arith, ◌==◌,
  if◌then◌else◌, select, Bool-cases,
}
use mailbox_cli.Outbox.Types.{State, Row}
use mailbox_cli.Outbox.Queue.{update, delete}
use mailbox_cli.Outbox.Store.{max_id}

-- The row with an id.
unfoldable pub row_at : ℕ → List Row → Option Row
row_at id [] = none
row_at id (r ∷ rows) = let rest = row_at id rows in if r.id == id then some r else rest

abbrev pub state_in : Option Row → Option State
state_in none = none
state_in (some r) = some r.state

-- The state of the row with an id.
abbrev pub state_at : ℕ → List Row → Option State
state_at id rows = state_in (row_at id rows)

abbrev pub map_row : (Row → Row) → Option Row → Option Row
map_row f none = none
map_row f (some r) = some (f r)

abbrev pub or_row : Option Row → Option Row → Option Row
or_row none b = b
or_row (some a) b = some a

module _ (f : Row → Row) (same_id : (r : Row) → (f r).id ≡ r.id) where
  pub row_at-update :
      (j id : ℕ) (rows : List Row)
      → row_at j (update id f rows) ≡ (if id == j then map_row f (row_at j rows) else row_at j rows)
  unfolding row_at update
  row_at-update j id [] = ground arith
  row_at-update j id (r ∷ rows) = ground (arith, same_id r, row_at-update j id rows)

  pub max_id-update : (id : ℕ) (rows : List Row) → max_id (update id f rows) ≡ max_id rows
  unfolding max_id update
  max_id-update id [] = refl
  max_id-update id (r ∷ rows) = ground (arith, same_id r, max_id-update id rows)

  pub row_at-map : (j : ℕ) (rows : List Row) → row_at j (map f rows) ≡ map_row f (row_at j rows)
  unfolding row_at
  row_at-map j [] = refl
  row_at-map j (r ∷ rows) = ground (arith, same_id r, row_at-map j rows)

  pub max_id-map : (rows : List Row) → max_id (map f rows) ≡ max_id rows
  unfolding max_id
  max_id-map [] = refl
  max_id-map (r ∷ rows) = ground (arith, same_id r, max_id-map rows)

pub row_at-append :
    (j : ℕ) (rows more : List Row)
    → row_at j (rows ++ more) ≡ or_row (row_at j rows) (row_at j more)
unfolding row_at
row_at-append j [] more = refl
row_at-append j (r ∷ rows) more = ground (arith, row_at-append j rows more)

pub max_id-append : (rows : List Row) (r : Row) → max_id (rows ++ r ∷ []) ≡ max (max_id rows) r.id
unfolding max_id
max_id-append [] r = omega arith
max_id-append (x ∷ rows) r = omega (arith, max_id-append rows r)

pub row_at-delete :
    (j id : ℕ) (rows : List Row)
    → row_at j (delete id rows) ≡ (if id == j then none else row_at j rows)
unfolding row_at delete
row_at-delete j id [] = ground arith
row_at-delete j id (r ∷ rows) = ground (arith, row_at-delete j id rows)

pub row_at-le-max_id :
    (j : ℕ) (rows : List Row) (r : Row) → row_at j rows ≡ some r → j ≤ max_id rows
unfolding row_at max_id
row_at-le-max_id j [] r h = cc
row_at-le-max_id j (x ∷ rows) r h = ground (arith, row_at-le-max_id j rows r)

-- The row that a statement finds has the id that was asked for.
pub row_at-id : (j : ℕ) (rows : List Row) (r : Row) → row_at j rows ≡ some r → r.id ≡ j
unfolding row_at
row_at-id j [] r h = cc
row_at-id j (x ∷ rows) r h = ground (arith, row_at-id j rows r)

-- The first row that WHERE id = ? picks is the row with that id.
pub select_row :
    (j : ℕ) (rows : List Row)
    → ((select (λ r. r.id == j) rows ≡ []) × (row_at j rows ≡ none))
      ⊎ ((r : Row) × (more : List Row) × (select (λ r. r.id == j) rows ≡ r ∷ more)
          × (row_at j rows ≡ some r))
unfolding row_at
select_row j [] = inl (refl, refl)
select_row j (x ∷ rows) = elim (Bool-cases (x.id == j)) [
  | inl e ↦ inr (x, select (λ r. r.id == j) rows, ground arith, ground arith)
  | inr e ↦ elim (select_row j rows) [
    | inl (p, q) ↦ inl (ground arith, ground arith)
    | inr (r, more, p, q) ↦ inr (r, more, ground arith, ground arith)
  ]
]
