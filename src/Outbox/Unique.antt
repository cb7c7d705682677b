-- ===== src/Outbox/Unique.antt =====
-- internal/outbox/outbox.go: what is read of a table in which no two rows have one id.
use mailbox_cli.Prelude.{
  ap, false, subst, ◌∙◌, ℕ, ◌≡◌, ◌≢◌, refl, inl, inr, Bool, true, List, [], ◌∷◌, map, arith, ◌==◌,
  select, All, Bool-cases, if◌then◌else◌,
}
use mailbox_cli.Outbox.Types.{State, Item, Row}
use mailbox_cli.Outbox.Store.{scan}
use mailbox_cli.Outbox.OneRow.{HasRow}
use mailbox_cli.Outbox.Sending.{AreApart}

-- No two rows have one id.
abbrev pub AreUnique : List Row → Type 0
AreUnique [] = Unit
AreUnique (r ∷ rows) = All (λ (x : Row). x.id ≢ r.id) rows × AreUnique rows

none_with :
    (id : ℕ) (rows : List Row)
    → All (λ (x : Row). x.id ≢ id) rows
    → select (λ r. r.id == id) rows ≡ []
none_with id [] h = refl
none_with id (r ∷ rows) (ne, more) = ground (arith, ne, none_with id rows more)

-- The rows that are picked, where picking settles their state.
abbrev Picked : State → List Row → List Row → Type 0
Picked s rows = All (λ (x : Row). HasRow x.id s rows)

behind :
    (s : State) (r : Row) (rows : List Row) (picked : List Row)
    → All (λ (x : Row). x.id ≢ r.id) picked
    → Picked s rows picked
    → Picked s (r ∷ rows) picked
behind s r rows [] ne h = tt
behind s r rows (x ∷ picked) (ne, more) (h, hs) = (
  record {
    row = h.row;
    more = h.more;
    picked = ground (arith, ne, h.picked);
    in_state = h.in_state;
  },
  behind s r rows picked more hs,
)

All-select :
    (P : Row → Type 0) (p : Row → Bool) (rows : List Row) → All P rows → All P (select p rows)
All-select P p [] h = tt
All-select P p (r ∷ rows) (h, hs) = elim (Bool-cases (p r)) [
  | inl e ↦ rw e (h, All-select P p rows hs)
  | inr e ↦ rw e (All-select P p rows hs)
]

select-Picked :
    (s : State) (p : Row → Bool) (rows : List Row)
    → ((r : Row) → p r ≡ true → r.state ≡ s)
    → AreUnique rows
    → Picked s rows (select p rows)
select-Picked s p [] h u = tt
select-Picked s p (r ∷ rows) h (ne, u) =
    let rest =
      behind s r rows (select p rows) (All-select (λ x. x.id ≢ r.id) p rows ne)
        (select-Picked s p rows h u) in
    elim (Bool-cases (p r)) [
      | inl e ↦ rw e (
        record {
          row = r;
          more = [];
          picked = ground (arith, none_with r.id rows ne);
          in_state = h r e;
        },
        rest,
      )
      | inr e ↦ rw e rest
    ]

pub scan-HasRow :
    (s : State) (rows picked : List Row)
    → All (λ (x : Row). HasRow x.id s rows) picked
    → All (λ (it : Item). HasRow it.id s rows) (map scan picked)
unfolding scan
scan-HasRow s rows [] h = tt
scan-HasRow s rows (x ∷ picked) (h, hs) = (h, scan-HasRow s rows picked hs)

apart_from :
    (id : ℕ) (picked : List Row)
    → All (λ (x : Row). x.id ≢ id) picked
    → All (λ (it : Item). it.id ≢ id) (map scan picked)
unfolding scan
apart_from id [] h = tt
apart_from id (x ∷ picked) (h, hs) = (h, apart_from id picked hs)

-- Rows of a unique table that are picked by their state: each is the row of its id, and they are apart.
pub select-HasRow :
    (s : State) (p : Row → Bool) (rows : List Row)
    → ((r : Row) → p r ≡ true → r.state ≡ s)
    → AreUnique rows
    → All (λ (it : Item). HasRow it.id s rows) (map scan (select p rows))
select-HasRow s p rows h u = scan-HasRow s rows (select p rows) (select-Picked s p rows h u)

pub select-AreApart :
    (p : Row → Bool) (rows : List Row) → AreUnique rows → AreApart (map scan (select p rows))
unfolding scan
select-AreApart p [] u = tt
select-AreApart p (r ∷ rows) (ne, u) = elim (Bool-cases (p r)) [
  | inl e ↦ rw e (
    apart_from r.id (select p rows) (All-select (λ x. x.id ≢ r.id) p rows ne),
    select-AreApart p rows u,
  )
  | inr e ↦ rw e (select-AreApart p rows u)
]

-- What holds of all that are picked holds of a row that is.
pub holds_of :
    (Q : ℕ → Type 0) (p : Row → Bool) (id : ℕ) (rows : List Row) (row : Row) (more : List Row)
    → select (λ r. r.id == id) rows ≡ row ∷ more
    → p row ≡ true
    → All (λ (it : Item). Q it.id) (map scan (select p rows))
    → Q id
unfolding scan
holds_of Q p id [] row more e h all = cc
holds_of Q p id (x ∷ rows) row more e h all = elim (Bool-cases (x.id == id)) [
  | inl q ↦
      let same : x ≡ row = ground (arith, e, q) in
      subst Q (ground (arith, q)) (at_pick true (ap p same ∙ h)).0
  | inr q ↦ elim (Bool-cases (p x)) [
    | inl b ↦ holds_of Q p id rows row more (ground (arith, e, q)) h (at_pick true b).1
    | inr b ↦ holds_of Q p id rows row more (ground (arith, e, q)) h (at_pick false b)
  ]
]
  where
    at_pick :
        (b : Bool)
        → p x ≡ b
        → All (λ (it : Item). Q it.id) (map scan (if b then x ∷ select p rows else select p rows))
    at_pick b pe =
        subst
          (λ t.
            All (λ (it : Item). Q it.id)
              (map scan (if t then x ∷ select p rows else select p rows)))
          pe all
