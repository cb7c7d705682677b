-- ===== src/Habit/Days.antt =====
-- internal/habit/habit.go: completing days, and the days of the week that a habit is for.
use mailbox_cli.Prelude.{
  ◌≡◌, refl, ◌∙◌, true, false, ◌&&◌, ◌||◌, not, List, [], ◌∷◌, ◌++◌, Text, text_eq, text_eq_iff,
  text_eq_refl, any_of-append, select, arith,
}
use mailbox_cli.Habit.Record.{Habit, has, done_on, insert_text, sort_texts, complete, uncomplete}

has-insert_text :
    (t x : Text) (xs : List Text) → has t (insert_text x xs) ≡ (text_eq x t || has t xs)
unfolding insert_text
has-insert_text t x [] = refl
has-insert_text t x (y ∷ xs) = ground (arith, has-insert_text t x xs)

has-sort_texts : (t : Text) (xs : List Text) → has t (sort_texts xs) ≡ has t xs
unfolding sort_texts
has-sort_texts t [] = refl
has-sort_texts t (x ∷ xs) = ground (arith, has-insert_text t x (sort_texts xs), has-sort_texts t xs)

has-without :
    (t d : Text) (xs : List Text)
    → has t (select (λ x. not (text_eq x d)) xs) ≡ (not (text_eq d t) && has t xs)
has-without t d [] = ground arith
has-without t d (x ∷ xs) =
    ground (arith, has-without t d xs, text_eq_iff x d, text_eq_iff x t, text_eq_iff d t)

done_on-complete :
    (date t : Text) (h : Habit) → done_on (complete date h) t ≡ (text_eq date t || done_on h t)
unfolding done_on complete
done_on-complete date t h = ground (
  arith,
  has-sort_texts t (h.done ++ (date ∷ [])),
  any_of-append (λ x. text_eq x t) h.done (date ∷ []),
  text_eq_iff date t,
  same,
)
  where
    same : date ≡ t → has date h.done ≡ has t h.done
    same e = rw e refl

done_on-uncomplete :
    (date t : Text) (h : Habit)
    → done_on (uncomplete date h) t ≡ (not (text_eq date t) && done_on h t)
unfolding done_on uncomplete
done_on-uncomplete date t h = has-without t date h.done

complete_again : (date : Text) (h : Habit) → done_on h date ≡ true → complete date h ≡ h
unfolding complete
complete_again date h e = rw e refl

-- Completing a day adds it to the days that were done and no other, doing it twice is doing it once,
-- and taking back a day that was not done before leaves the days as they were.
pub complete_lem :
    (date : Text) (h : Habit)
    → ((t : Text) → done_on (complete date h) t ≡ (text_eq date t || done_on h t))
      × (complete date (complete date h) ≡ complete date h)
      × (done_on h date ≡ false
          → (t : Text) → done_on (uncomplete date (complete date h)) t ≡ done_on h t)
complete_lem date h = (
  (λ t. done_on-complete date t h),
  twice,
  (λ e t.
      done_on-uncomplete date t (complete date h)
      ∙ ground (arith, done_on-complete date t h, e, text_eq_iff date t, same t)),
)
  where
    done : done_on (complete date h) date ≡ true
    done = ground (arith, done_on-complete date date h, text_eq_refl date)

    twice : complete date (complete date h) ≡ complete date h
    twice = complete_again date (complete date h) done

    same : (t : Text) → date ≡ t → done_on h date ≡ done_on h t
    same t e = rw e refl
