-- ===== src/MailSync/Relocate.antt =====
-- internal/sync/mailsync/write.go, Move: what the move of one placement leaves in the Mirror.
use mailbox_cli.Prelude.{
  ℕ, ◌≡◌, ◌≢◌, ◌∙◌, Bool, false, ◌&&◌, not, none, some, List, [], ◌∷◌, Text, text_eq, text_eq_iff,
  arith, ◌==◌, if◌then◌else◌, select, mem, All,
}
use mailbox_cli.Mirror.Types.{Placement, Mirror}
use mailbox_cli.Mirror.Tx.{sits_at, put, put_placement, placed, delete_placements}
use mailbox_cli.Mirror.Placements.{placed-select_at}
use mailbox_cli.MailSync.Writer.{relocate}

placed-put :
    (g : Text) (v : ℕ) (p : Placement) (ps : List Placement)
    → placed g v (put p ps) ≡ (if sits_at g v p then some p else placed g v ps)
unfolding placed put
placed-put g v p [] = ground arith
placed-put g v p (x ∷ ps) = ground (
  arith,
  placed-put g v p ps,
  text_eq_iff x.folder p.folder,
  text_eq_iff x.folder g,
  text_eq_iff p.folder g,
)

-- The placement as it is at its new place.
abbrev pub landed : Text → ℕ → Placement → Placement
landed dest n p = record p { folder = dest; uid = n }

-- The Mirror holds every one of the uids.
abbrev pub Held : Text → Mirror → List ℕ → Type 0
Held folder m = All (λ u. (p : Placement) × (placed folder u m.placements ≡ some p))

module _ (kept : Bool) (folder dest : Text) (apart : text_eq folder dest ≡ false) where
  pub placed-relocate :
      (g : Text) (v uid new : ℕ) (p : Placement) (m : Mirror)
      → placed g v (relocate kept folder uid new dest p m).placements ≡ (
          if not (new == 0) && kept && text_eq dest g && new == v
          then some (landed dest new p)
          else if text_eq folder g && uid == v
          then none
          else placed g v m.placements)
  unfolding relocate put_placement delete_placements
  placed-relocate g v uid new p m = ground (
    arith,
    placed-put g v (landed dest new p) (select (λ q. not (sits_at folder uid q)) m.placements),
    placed-select_at g v folder uid m.placements,
  )

  pub messages-relocate :
      (uid new : ℕ) (p : Placement) (m : Mirror)
      → (relocate kept folder uid new dest p m).messages ≡ m.messages
  unfolding relocate put_placement delete_placements
  messages-relocate uid new p m = ground arith

  pub placed-relocate_other :
      (v uid new : ℕ) (p : Placement) (m : Mirror)
      → uid ≢ v
      → placed folder v (relocate kept folder uid new dest p m).placements
        ≡ placed folder v m.placements
  placed-relocate_other v uid new p m ne =
      placed-relocate folder v uid new p m
      ∙ ground (arith, ne, text_eq_iff dest folder, text_eq_iff folder dest)

  pub relocate-Held :
      (uid new : ℕ) (p : Placement) (m : Mirror) (uids : List ℕ)
      → mem uid uids ≡ false
      → Held folder m uids
      → Held folder (relocate kept folder uid new dest p m) uids
  relocate-Held uid new p m [] h held = tt
  relocate-Held uid new p m (u ∷ uids) h ((q, e), held) = (
    (q, placed-relocate_other u uid new p m (λ r. ground arith) ∙ e),
    relocate-Held uid new p m uids (ground arith) held,
  )
