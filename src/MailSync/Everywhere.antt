-- ===== src/MailSync/Everywhere.antt =====
-- internal/sync/mailsync/reconciler.go, SyncAll: what one folder comes to in a cycle over many,
-- whatever becomes of the others.
use mailbox_cli.Prelude.{
  ℕ, ◌≡◌, refl, sym, ap, ◌∙◌, subst, inl, inr, true, some, List, [], ◌∷◌, Text, text_eq,
  text_eq_iff, text_eq_refl, arith, select, any_of, All, Bool-cases,
}
use mailbox_cli.Mirror.Types.{Mirror, FolderState, Placement}
use mailbox_cli.Mirror.Tx.{folder_state, sits_in, placed}
use mailbox_cli.Mirror.Placements.{flags_at}
use mailbox_cli.MailSync.Plan.{FolderStatus}
use mailbox_cli.MailSync.Decision.{Continues}
use mailbox_cli.MailSync.Types.{Driver, Outcome, Try, ok, fail}
use mailbox_cli.MailSync.Reconciler.{apply}
use mailbox_cli.MailSync.Server.{Remote, remote_flags, Honest, Advanced}
use mailbox_cli.MailSync.Rebuilt.{succeeded}
use mailbox_cli.MailSync.Current.{sync_converges}
use mailbox_cli.MailSync.Apart.{Untouched, trans-Untouched, apply-Untouched}
use mailbox_cli.MailSync.Sweep.{in_order, Swept, add_swept, sweep, sweep_answer, sync_all}
use mailbox_cli.MailSync.InOrder.{how_many, is_listed, in_order_once}
use mailbox_cli.MailSync.Listed.{All-in_order}

-- Only the placements of a folder say what sits in it.
flags_at-select :
    (f : Text) (u : ℕ) (ps : List Placement)
    → flags_at f u (select (sits_in f) ps) ≡ flags_at f u ps
unfolding placed
flags_at-select f u [] = refl
flags_at-select f u (p ∷ ps) = ground (arith, flags_at-select f u ps)

flags_at-Untouched :
    (f : Text) (u : ℕ) (m m' : Mirror)
    → Untouched f m m'
    → flags_at f u m'.placements ≡ flags_at f u m.placements
flags_at-Untouched f u m m' h =
    sym (flags_at-select f u m'.placements)
    ∙ ap (flags_at f u) h.rows
    ∙ flags_at-select f u m.placements

folder_state-Untouched :
    (f : Text) (m m' : Mirror) → Untouched f m m' → folder_state m' f ≡ folder_state m f
unfolding folder_state
folder_state-Untouched f m m' h = rw (h.rows, h.row)

module _ (d : Driver) (f : Text) (s : List Remote) (st : FolderStatus) where
  -- Where the folder continues what the Mirror holds, the server has advanced from it.
  abbrev pub Ready : Mirror → Type 0
  Ready m = Continues (folder_state m f) st → Advanced f m.placements (folder_state m f) st s

  moved-Advanced :
      (m m' : Mirror) (local : FolderState)
      → Untouched f m m'
      → Advanced f m.placements local st s
      → Advanced f m'.placements local st s
  moved-Advanced m m' local h adv = record {
    unchanged = λ u there quiet. flags_at-Untouched f u m m' h ∙ adv.unchanged u there quiet;
    held_before = λ u there old. rw (flags_at-Untouched f u m m' h) (adv.held_before u there old);
    arrived = adv.arrived;
    next = adv.next;
    counted = adv.counted;
    distinct = adv.distinct;
    number = adv.number;
    some_next = adv.some_next;
    some_mod_seq = adv.some_mod_seq;
  }

  moved-Ready : (m m' : Mirror) → Untouched f m m' → Ready m → Ready m'
  moved-Ready m m' h ready =
      subst (λ (l : FolderState). Continues l st → Advanced f m'.placements l st s)
        (sym (folder_state-Untouched f m m' h))
        (λ c. moved-Advanced m m' (folder_state m f) h (ready c))

  -- The folder is what the server has, and its outcome is reported.
  pub record IsSwept (out : Swept) (m : Mirror) : Type 0 where
    pub same : (u : ℕ) → flags_at f u m.placements ≡ remote_flags u s
    pub reported : any_of (λ o. text_eq o.0 f) out.outcomes ≡ true

  sweep-Untouched :
      (more : List FolderStatus) (m : Mirror)
      → how_many f more ≡ 0
      → Untouched f m (sweep d more m).1
  unfolding sweep
  sweep-Untouched [] m h = record { rows = refl; row = refl }
  sweep-Untouched (x ∷ more) m h = elim (Bool-cases (text_eq x.name f)) [
    | inl e ↦ absurd (ground arith)
    | inr e ↦
        trans-Untouched f m (apply d x.name x m).1 _ (apply-Untouched f x.name e d x m)
          (sweep-Untouched more (apply d x.name x m).1 (ground arith))
  ]

  add_swept-here :
      (r : Try Outcome) (out : Swept)
      → succeeded r ≡ true
      → any_of (λ o. text_eq o.0 f) (add_swept f r out).outcomes ≡ true
  add_swept-here (ok o) out h = rw (text_eq_refl f)
  add_swept-here (fail e) out h = cc

  add_swept-later :
      (name : Text) (r : Try Outcome) (out : Swept)
      → any_of (λ o. text_eq o.0 f) out.outcomes ≡ true
      → any_of (λ o. text_eq o.0 f) (add_swept name r out).outcomes ≡ true
  add_swept-later name (ok o) out h = ground (arith, h)
  add_swept-later name (fail e) out h = h

  module _ (honest : Honest d f s) where
    here-IsSwept :
        (more : List FolderStatus) (m : Mirror)
        → how_many f more ≡ 0
        → Ready m
        → let (r, m') = apply d f st m in
          let (out, end) = sweep d more m' in IsSwept (add_swept f r out) end
    here-IsSwept more m none_left ready =
        let (r, m') = apply d f st m in
        let (done, cur) = sync_converges d f s st m honest ready in
        record {
          same = λ u.
              flags_at-Untouched f u m' (sweep d more m').1 (sweep-Untouched more m' none_left)
              ∙ cur.same u;
          reported = add_swept-here r (sweep d more m').0 done;
        }

    named-IsSwept :
        (n : Text) (y : FolderStatus)
        → n ≡ f
        → y ≡ st
        → (more : List FolderStatus) (m : Mirror) → how_many f more ≡ 0
        → Ready m
        → let (r, m') = apply d n y m in
          let (out, end) = sweep d more m' in IsSwept (add_swept n r out) end
    named-IsSwept n y p q more m h ready = rw (p, q) (here-IsSwept more m h ready)

    sweep-IsSwept :
        (sts : List FolderStatus) (m : Mirror)
        → how_many f sts ≡ 1
        → All (λ x. x.name ≡ f → x ≡ st) sts
        → Ready m
        → IsSwept (sweep d sts m).0 (sweep d sts m).1
    unfolding sweep
    sweep-IsSwept [] m one h ready = absurd (omega (arith, one))
    sweep-IsSwept (x ∷ more) m one (hx, h) ready = elim (Bool-cases (text_eq x.name f)) [
      | inl e ↦
          let p = (text_eq_iff x.name f).0 e in
          named-IsSwept x.name x p (hx p) more m (ground arith) ready
      | inr e ↦
          let u = apply-Untouched f x.name e d x m in
          let later =
            sweep-IsSwept more (apply d x.name x m).1 (ground arith) h
              (moved-Ready m (apply d x.name x m).1 u ready) in
          record { same = later.same; reported = add_swept-later x.name _ _ later.reported }
    ]

-- If the server's status request answers, with one status for a folder, and the server answers for
-- that folder from one state and, where the folder continues what the Mirror holds, has advanced
-- from the state that the Mirror holds, then SyncAll answers with an outcome for the folder, and the
-- folder then holds exactly the uids of the server with their flags, in whatever order the folders
-- were asked for and whichever requests about other folders fail.
pub sync_all_converges :
    (d : Driver) (folders : List Text) (sts : List FolderStatus) (m : Mirror) (f : Text)
    (s : List Remote) (st : FolderStatus)
    → d.status folders ≡ some sts
    → is_listed f sts ≡ true
    → All (λ x. x.name ≡ f → x ≡ st) sts
    → Honest d f s
    → Ready d f s st m
    → let (r, m') = sync_all d folders m in (out : Swept) × (r ≡ ok out) × IsSwept d f s st out m'
unfolding sync_all sweep_answer
sync_all_converges d folders sts m f s st answer listed one honest ready = rw answer (
  (sweep d (in_order folders sts) m).0,
  refl,
  sweep-IsSwept d f s st honest (in_order folders sts) m (in_order_once folders sts f ∙ rw listed)
      (All-in_order _ folders sts one) ready,
)
