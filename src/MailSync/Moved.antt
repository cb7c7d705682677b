-- ===== src/MailSync/Moved.antt =====
-- internal/sync/mailsync/write.go, Move: what a move of one folder leaves in the Mirror.
use mailbox_cli.Prelude.Cuts.{equal_fold}
use mailbox_cli.Prelude.{
  ℕ, ◌≡◌, ◌≢◌, refl, ◌∙◌, subst, inl, inr, Bool, true, false, ◌&&◌, Option, none, some, List, [],
  ◌∷◌, Text, text_eq, text_eq_iff, text_eq_refl, to_lower, arith, ◌==◌, if◌then◌else◌, mem, All,
  Bool-cases,
}
use mailbox_cli.Mirror.Types.{Placement, Mirror}
use mailbox_cli.Mirror.Tx.{placed, set_flags}
use mailbox_cli.Mirror.Placements.{flags_at, flags_at-flag}
use mailbox_cli.MailSync.Place.{find_id}
use mailbox_cli.MailSync.Server.{Distinct}
use mailbox_cli.MailSync.Types.{FlagUpdate}
use mailbox_cli.MailSync.Writes.{changed_flags_of}
use mailbox_cli.MailSync.Writer.{
  Writer, Written, mirrors, new_uid, relocate, move_each, committed, move_acked, move_folder,
  WriteFailure, stored, write_updates,
}
use mailbox_cli.MailSync.Relocate.{
  landed, Held, placed-relocate, messages-relocate, placed-relocate_other, relocate-Held,
}

-- What a move leaves: the mails themselves are as they were; every placement outside the
-- destination is as it was, but those that were moved, which are gone; a uid of the destination
-- that is nobody's new uid holds what it held; and if the Mirror holds the destination, a placement
-- sits at the new uid that the server said, if it is no other's, with its mail and its flags.
pub record HasMoved (kept : Bool) (folder dest : Text) (moved : List (ℕ × ℕ)) (uids : List ℕ)
    (m m' : Mirror) : Type 0 where
  pub same_messages : m'.messages ≡ m.messages
  pub left :
      (g : Text) (v : ℕ)
      → text_eq dest g ≡ false
      → placed g v m'.placements
        ≡ (if text_eq folder g && mem v uids then none else placed g v m.placements)
  pub untouched :
      (n : ℕ)
      → All (λ u. new_uid (find_id u moved) ≢ n) uids
      → placed dest n m'.placements ≡ placed dest n m.placements
  pub arrived :
      (u : ℕ) (p : Placement)
      → kept ≡ true
      → mem u uids ≡ true
      → placed folder u m.placements ≡ some p
      → new_uid (find_id u moved) ≢ 0
      → ((v : ℕ)
          → mem v uids ≡ true
          → new_uid (find_id v moved) ≡ new_uid (find_id u moved)
          → v ≡ u)
      → placed dest (new_uid (find_id u moved)) m'.placements
        ≡ some (landed dest (new_uid (find_id u moved)) p)

-- No other uid has the new one.
others_apart :
    (u : ℕ) (moved : List (ℕ × ℕ)) (uids : List ℕ)
    → mem u uids ≡ false
    → ((v : ℕ) → mem v uids ≡ true → new_uid (find_id v moved) ≡ new_uid (find_id u moved) → v ≡ u)
    → All (λ v. new_uid (find_id v moved) ≢ new_uid (find_id u moved)) uids
others_apart u moved [] h only = tt
others_apart u moved (x ∷ uids) h only = (
  λ e. let q = only x (ground arith) e in ground arith,
  others_apart u moved uids (ground arith) (λ v k e. only v (ground (arith, k)) e),
)

module _ (kept : Bool) (folder dest : Text) (apart : text_eq folder dest ≡ false)
    (moved : List (ℕ × ℕ)) where
  step-HasMoved :
      (uid : ℕ) (p : Placement) (uids : List ℕ) (m m' : Mirror)
      → mem uid uids ≡ false
      → placed folder uid m.placements ≡ some p
      → let new = new_uid (find_id uid moved) in
        HasMoved kept folder dest moved uids (relocate kept folder uid new dest p m) m'
        → HasMoved kept folder dest moved (uid ∷ uids) m m'
  step-HasMoved uid p uids m m' h e rest =
      let new = new_uid (find_id uid moved) in
      record {
        same_messages = rest.same_messages ∙ messages-relocate kept folder dest apart uid new p m;
        left = λ g v ne.
            rest.left g v ne
            ∙ ground (arith, placed-relocate kept folder dest apart g v uid new p m, ne);
        untouched = λ n (k, ks).
            rest.untouched n ks
            ∙ ground (arith, placed-relocate kept folder dest apart dest n uid new p m, k, apart);
        arrived = λ u q k there at_u nonzero only. elim (Bool-cases (uid == u)) [
          | inl same ↦
              subst
                (λ (x : ℕ).
                  placed folder x m.placements ≡ some q
                  → new_uid (find_id x moved) ≢ 0
                  → ((v : ℕ)
                      → mem v (uid ∷ uids) ≡ true
                      → new_uid (find_id v moved) ≡ new_uid (find_id x moved)
                      → v ≡ x)
                  → placed dest (new_uid (find_id x moved)) m'.placements
                    ≡ some (landed dest (new_uid (find_id x moved)) q))
                (ground (arith, same))
                (λ ex nz on.
                  rest.untouched new
                    (others_apart uid moved uids h (λ v w. on v (ground (arith, w))))
                  ∙ placed-relocate kept folder dest apart dest new uid new p m
                  ∙ ground (arith, k, nz, text_eq_refl dest, e, ex))
                at_u nonzero only
          | inr other ↦
              rest.arrived u q k (ground arith)
                (placed-relocate_other kept folder dest apart u uid new p m (λ r. ground arith)
                  ∙ at_u)
                nonzero (λ v w x. only v (ground (arith, w)) x)
        ];
      }

  move_each-HasMoved :
      (uids : List ℕ) (m : Mirror)
      → Distinct uids
      → Held folder m uids
      → ((move_each kept folder dest moved uids m).failure ≡ none)
        × HasMoved kept folder dest moved uids m (move_each kept folder dest moved uids m).mirror
  unfolding move_each
  move_each-HasMoved [] m distinct held = (
    refl,
    record {
      same_messages = refl;
      left = λ g v ne. ground arith;
      untouched = λ n k. refl;
      arrived = λ u p k there at_u nonzero only. cc;
    },
  )
  move_each-HasMoved (uid ∷ uids) m (h, distinct) ((p, e), held) =
      let new = new_uid (find_id uid moved) in
      let start = relocate kept folder uid new dest p m in
      let (sound, rest) =
        move_each-HasMoved uids start distinct
          (relocate-Held kept folder dest apart uid new p m uids h held) in
      rw (move_each, e) (sound, step-HasMoved uid p uids m _ h e rest)

-- Folders that differ but for case differ.
pub text_eq-equal_fold : (a b : Text) → equal_fold a b ≡ false → text_eq a b ≡ false
unfolding equal_fold
text_eq-equal_fold a b h = elim (Bool-cases (text_eq a b)) [
  | inl e ↦ absurd (differ ((text_eq_iff a b).0 e) (text_eq_refl (to_lower a)) h)
  | inr e ↦ e
]
  where
    differ :
        a ≡ b
        → text_eq (to_lower a) (to_lower a) ≡ true
        → text_eq (to_lower a) (to_lower b) ≡ false
        → ⊥
    differ p r h' = cc

-- If the folder and the destination differ, the server acknowledges the move, and the Mirror holds
-- each of the uids, which are distinct, then the move of a folder succeeds: the mails themselves are
-- as they were; every placement outside the destination is as it was, but those that were moved,
-- which are gone; a uid of the destination that is nobody's new uid holds what it held; and if the
-- Mirror holds the destination, a placement sits at the new uid that the server said, if it is no
-- other's, with its mail and its flags.
pub move_folder-HasMoved :
    (w : Writer) (folder dest : Text) (uids : List ℕ) (moved : List (ℕ × ℕ)) (m : Mirror)
    → equal_fold folder dest ≡ false
    → w.move folder uids dest ≡ some moved
    → Distinct uids
    → Held folder m uids
    → let st = move_folder w dest folder uids m in
      (st.failure ≡ none) × HasMoved (mirrors w dest) folder dest moved uids m st.mirror
unfolding move_folder move_acked
move_folder-HasMoved w folder dest uids moved m differ acked distinct held =
    let (sound, has) =
      move_each-HasMoved (mirrors w dest) folder dest (text_eq-equal_fold folder dest differ) moved
        uids m distinct held in
    rw (differ, acked, sound) (unfold committed in (refl, has))

-- A move of a folder that fails, at the server or at a uid that the Mirror does not hold, leaves the
-- Mirror as it was.
pub move_folder_failed :
    (w : Writer) (folder dest : Text) (uids : List ℕ) (m : Mirror) (e : WriteFailure)
    → (move_folder w dest folder uids m).failure ≡ some e
    → (move_folder w dest folder uids m).mirror ≡ m
unfolding move_folder
move_folder_failed w folder dest uids m e h = elim (Bool-cases (equal_fold folder dest)) [
  | inl same ↦ rw same refl
  | inr differ ↦ rw differ (acked (w.move folder uids dest) (ground (arith, h, differ)))
]
  where
    rolled :
        (st : Written) (o : Option WriteFailure)
        → st.failure ≡ o
        → (committed m st o).failure ≡ some e
        → (committed m st o).mirror ≡ m
    rolled st none q k = unfold committed in cc
    rolled st (some x) q k = unfold committed in refl

    acked :
        (o : Option (List (ℕ × ℕ)))
        → (move_acked w folder dest uids m o).failure ≡ some e
        → (move_acked w folder dest uids m o).mirror ≡ m
    acked none k = unfold move_acked in refl
    acked (some moved) k =
        unfold move_acked in rolled (move_each (mirrors w dest) folder dest moved uids m) _ refl k

-- Where the server acknowledges a change of flags, the Mirror takes the flags that it reports, and
-- no other: each uid that it holds has the last ones reported for it, or those that it had, and
-- every other folder is as it was.
pub flags_at-stored :
    (folder g : Text) (u : ℕ) (updates : List FlagUpdate) (m : Mirror)
    → flags_at g u (stored folder m (some updates)).mirror.placements ≡ (
        if text_eq folder g
        then changed_flags_of u updates (flags_at folder u m.placements)
        else flags_at g u m.placements)
unfolding stored write_updates set_flags
flags_at-stored folder g u [] m = ground (arith, text_eq_iff folder g)
flags_at-stored folder g u (x ∷ updates) m =
    flags_at-stored folder g u updates (set_flags folder x.uid x.flags m)
    ∙ ground (
      arith,
      flags_at-flag folder u folder x.uid x.flags m.placements,
      flags_at-flag g u folder x.uid x.flags m.placements,
      text_eq_refl folder,
    )
