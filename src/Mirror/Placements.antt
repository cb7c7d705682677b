-- ===== src/Mirror/Placements.antt =====
-- internal/mirror/write.go: what each write of a placement leaves at every folder and uid.
use mailbox_cli.Prelude.{
  ℕ, ◌≡◌, refl, ◌∙◌, Bool, true, false, ◌&&◌, ◌||◌, not, Option, none, some, List, [], ◌∷◌, map,
  Text, text_eq, text_eq_iff, arith, ◌==◌, if◌then◌else◌, select, mem,
}
use mailbox_cli.Mirror.Types.{Placement, Mirror}
use mailbox_cli.Mirror.Tx.{
  sits_in, sits_at, delete_placements, put, placed, flag, sort, insert_sorted, uids,
}

abbrev pub flags_in : Option Placement → Option (List Text)
flags_in none = none
flags_in (some p) = some p.flags

-- The flags held at a folder and uid; `none` where nothing is held.
abbrev pub flags_at : Text → ℕ → List Placement → Option (List Text)
flags_at folder u ps = flags_in (placed folder u ps)

abbrev pub set_to : List Text → Option (List Text) → Option (List Text)
set_to flags none = none
set_to flags (some _) = some flags

pub flags_at-put :
    (folder : Text) (u : ℕ) (p : Placement) (ps : List Placement)
    → flags_at folder u (put p ps)
      ≡ (if sits_at folder u p then some p.flags else flags_at folder u ps)
unfolding placed put
flags_at-put folder u p [] = ground arith
flags_at-put folder u p (x ∷ ps) = ground (
  arith,
  flags_at-put folder u p ps,
  text_eq_iff x.folder p.folder,
  text_eq_iff x.folder folder,
  text_eq_iff p.folder folder,
)

pub flags_at-flag :
    (folder : Text) (u : ℕ) (g : Text) (v : ℕ) (flags : List Text) (ps : List Placement)
    → flags_at folder u (flag g v flags ps) ≡ (
        if text_eq g folder && v == u
        then set_to flags (flags_at folder u ps)
        else flags_at folder u ps)
unfolding placed flag
flags_at-flag folder u g v flags [] = ground arith
flags_at-flag folder u g v flags (x ∷ ps) = ground (
  arith,
  flags_at-flag folder u g v flags ps,
  text_eq_iff x.folder g,
  text_eq_iff x.folder folder,
  text_eq_iff g folder,
)

pub placed-select_at :
    (folder : Text) (u : ℕ) (g : Text) (v : ℕ) (ps : List Placement)
    → placed folder u (select (λ p. not (sits_at g v p)) ps)
      ≡ (if text_eq g folder && v == u then none else placed folder u ps)
unfolding placed
placed-select_at folder u g v [] = ground arith
placed-select_at folder u g v (x ∷ ps) = ground (
  arith,
  placed-select_at folder u g v ps,
  text_eq_iff x.folder g,
  text_eq_iff x.folder folder,
  text_eq_iff g folder,
)

pub placed-drop_placements :
    (folder : Text) (u : ℕ) (g : Text) (ps : List Placement)
    → placed folder u (select (λ p. not (sits_in g p)) ps)
      ≡ (if text_eq g folder then none else placed folder u ps)
unfolding placed
placed-drop_placements folder u g [] = ground arith
placed-drop_placements folder u g (x ∷ ps) = ground (
  arith,
  placed-drop_placements folder u g ps,
  text_eq_iff x.folder g,
  text_eq_iff x.folder folder,
  text_eq_iff g folder,
)

pub placed-delete_placements :
    (folder : Text) (u : ℕ) (g : Text) (gone : List ℕ) (m : Mirror)
    → placed folder u (delete_placements g gone m).placements
      ≡ (if text_eq g folder && mem u gone then none else placed folder u m.placements)
unfolding delete_placements
placed-delete_placements folder u g [] m = ground arith
placed-delete_placements folder u g (v ∷ gone) m = ground (
  arith,
  placed-delete_placements folder u g gone
      (record m { placements = select (λ p. not (sits_at g v p)) m.placements }),
  placed-select_at folder u g v m.placements,
)

mem-insert_sorted : (u x : ℕ) (xs : List ℕ) → mem u (insert_sorted x xs) ≡ (x == u || mem u xs)
unfolding insert_sorted
mem-insert_sorted u x [] = refl
mem-insert_sorted u x (y ∷ ys) = ground (arith, mem-insert_sorted u x ys)

pub mem-sort : (u : ℕ) (xs : List ℕ) → mem u (sort xs) ≡ mem u xs
unfolding sort
mem-sort u [] = refl
mem-sort u (x ∷ xs) = ground (arith, mem-sort u xs, mem-insert_sorted u x (sort xs))

abbrev pub is_some_flags : Option (List Text) → Bool
is_some_flags none = false
is_some_flags (some _) = true

mem_uids :
    (folder : Text) (u : ℕ) (ps : List Placement)
    → mem u (map (λ p. p.uid) (select (sits_in folder) ps)) ≡ is_some_flags (flags_at folder u ps)
unfolding placed
mem_uids folder u [] = refl
mem_uids folder u (p ∷ ps) = ground (arith, mem_uids folder u ps)

-- The uids that a folder lists are those that it holds a placement for.
pub mem-uids :
    (folder : Text) (u : ℕ) (m : Mirror)
    → mem u (uids folder m) ≡ is_some_flags (flags_at folder u m.placements)
unfolding uids
mem-uids folder u m =
    mem-sort u (map (λ p. p.uid) (select (sits_in folder) m.placements))
    ∙ mem_uids folder u m.placements
