-- ===== src/MailSync/Counting.antt =====
-- Why the number of messages tells internal/sync/mailsync about an expunge: a list that holds
-- distinct uids and is as long as another list with all of them leaves none over.
use mailbox_cli.Prelude.{
  ℕ, suc, ◌≤◌, ◌≡◌, refl, ap, ◌∙◌, inl, inr, true, false, List, [], ◌∷◌, map, arith, ◌==◌,
  if◌then◌else◌, length, mem, Bool-cases,
}
use mailbox_cli.Mirror.Tx.{sort, insert_sorted}
use mailbox_cli.MailSync.Server.{Distinct}

-- The list without the first element that equals `a`.
remove : ℕ → List ℕ → List ℕ
remove a [] = []
remove a (x ∷ xs) = let rest = remove a xs in if x == a then xs else x ∷ rest

length-remove : (a : ℕ) (xs : List ℕ) → mem a xs ≡ true → suc (length (remove a xs)) ≡ length xs
unfolding remove
length-remove a [] h = cc
length-remove a (x ∷ xs) h = ground (arith, length-remove a xs)

mem-remove : (u a : ℕ) (xs : List ℕ) → (u == a) ≡ false → mem u (remove a xs) ≡ mem u xs
unfolding remove
mem-remove u a [] h = refl
mem-remove u a (x ∷ xs) h = ground (arith, mem-remove u a xs h)

mem_same : (a b : ℕ) (xs : List ℕ) → a ≡ b → mem a xs ≡ mem b xs
mem_same a b xs e = rw e

-- If all of `xs`, which are distinct, are in `ys`, and `ys` is no longer than `xs`, then all of
-- `ys` are in `xs`.
pub none_left_over :
    (xs ys : List ℕ)
    → Distinct xs
    → ((u : ℕ) → mem u xs ≡ true → mem u ys ≡ true)
    → length ys ≤ length xs
    → (u : ℕ) → mem u ys ≡ true
    → mem u xs ≡ true
none_left_over [] [] d sub l u h = h
none_left_over [] (y ∷ ys) d sub l u h = absurd (omega arith)
none_left_over (x ∷ xs) ys d sub l u h = elim (Bool-cases (x == u)) [
  | inl e ↦ rw e
  | inr e ↦
      let there : mem x ys ≡ true = sub x (ground arith) in
      let rest =
        none_left_over xs (remove x ys) d.1
          (λ v hv. mem-remove v x ys (ground (arith, d.0, mem_same v x xs)) ∙ sub v (ground arith))
          (omega (arith, length-remove x ys there)) u (mem-remove u x ys (ground arith) ∙ h) in
      ground arith
]

length-insert_sorted : (x : ℕ) (xs : List ℕ) → length (insert_sorted x xs) ≡ suc (length xs)
unfolding insert_sorted
length-insert_sorted x [] = refl
length-insert_sorted x (y ∷ ys) = ground (arith, length-insert_sorted x ys)

pub length-sort : (xs : List ℕ) → length (sort xs) ≡ length xs
unfolding sort
length-sort [] = refl
length-sort (x ∷ xs) = length-insert_sorted x (sort xs) ∙ ap suc (length-sort xs)

pub length-map {ℓ κ} :
    {A : Type ℓ} {B : Type κ} (f : A → B) (xs : List A) → length (map f xs) ≡ length xs
length-map f [] = refl
length-map f (x ∷ xs) = ap suc (length-map f xs)
