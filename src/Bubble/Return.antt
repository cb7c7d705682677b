-- ===== src/Bubble/Return.antt =====
-- internal/daemon/bubble.go: a thread is set aside with a return time, and brought back to the Inbox.
-- The server is the Writer of the mail synchronisation; what is told to listeners is left out.
use mailbox_cli.Prelude.{
  ℕ, Bool, true, false, ◌&&◌, ◌||◌, not, Option, none, some, List, [], ◌∷◌, ◌++◌, Text, codes,
  text_eq, ◌==◌, if◌then◌else◌, any_of, select,
}
use mailbox_cli.Prelude.Cuts.{equal_fold}
use mailbox_cli.Mirror.Types.{Message, Placement, Mirror}
use mailbox_cli.Mirror.Tx.{placed}
use mailbox_cli.MailSync.Writer.{Ref, Result, Writer, WriteFailure, Written, change_flags, move}
use mailbox_cli.Clock.Calendar.{Time}
use mailbox_cli.Bubble.Keyword.{keyword, keyword_of, returned}
use mailbox_cli.Bubble.Due.{BubbleRef, joined, bubbles_due, BubbleRow, bubble_rows, bubbled}

-- routing.BoxInbox, routing.BoxAside
abbrev pub inbox : Text
inbox = codes "INBOX"

abbrev pub box_aside : Text
box_aside = codes "INBOX/Aside"

-- The account's spelling of a box, and whether it has one.
unfoldable pub box_named : List Text → Text → Text × Bool
box_named [] want = (want, false)
box_named (b ∷ bs) want =
    let rest = box_named bs want in if equal_fold b want then (b, true) else rest

-- What a bubble answers when it fails.
pub data BubbleFailure : Type 0 where
  no_aside : BubbleFailure
  not_found : BubbleFailure
  not_kept : BubbleFailure
  strip_failed store_failed move_failed : WriteFailure → BubbleFailure

-- What a command leaves, with what it has written.
pub record Brought : Type 0 where
  pub results : List Result
  pub failure : Option BubbleFailure
  pub mirror : Mirror

abbrev pub and_message : Option Placement → Option Message → Option (Placement × Message)
and_message none m = none
and_message (some p) none = none
and_message (some p) (some m) = some (p, m)

abbrev pub row_joined : List Message → Option Placement → Option (Placement × Message)
row_joined ms none = none
row_joined ms (some p) = and_message (some p) (joined p.message_id ms)

-- Mirror.Row; `none` is ErrNotFound.
unfoldable pub mirror_row : Text → ℕ → Mirror → Option (Placement × Message)
mirror_row folder uid m = row_joined m.messages (placed folder uid m.placements)

unfoldable pub has_flag : Text → List Text → Bool
has_flag f flags = any_of (λ g. text_eq g f) flags

-- What a return takes off: \Seen, and the keyword where there is one.
unfoldable pub taken_off : Text → List Text
taken_off kw = codes "\\Seen" ∷ (if text_eq kw [] then [] else kw ∷ [])

abbrev pub failed : List Result → BubbleFailure → Mirror → Brought
failed rs e m = record { results = rs; failure = some e; mirror = m }

-- The moves that are left, and what they add.
abbrev pub moved_in : List Result → Written → Option WriteFailure → Brought
moved_in rs st none = record { results = rs ++ st.results; failure = none; mirror = st.mirror }
moved_in rs st (some e) = failed rs (BubbleFailure.move_failed e) st.mirror

unfoldable pub move_home : Writer → Text → List Result → List Ref → Mirror → Brought
move_home w home rs [] m = record { results = rs; failure = none; mirror = m }
move_home w home rs (r ∷ refs) m = let st = move w (r ∷ refs) home m in moved_in rs st st.failure

-- The flags of one mail for its return.
unfoldable pub reflag : Writer → Ref → List Text → Mirror → Written
reflag w r flags = change_flags w (r ∷ []) (returned ∷ []) (taken_off (keyword_of flags))

-- The loop of bringBack, with the results and the refs to move so far.
unfoldable pub bring_each : Writer → Text → List Ref → List Result → List Ref → Mirror → Brought
bring_each w home [] rs moves m = move_home w home rs moves m
bring_each w home (r ∷ refs) rs moves m = elim (mirror_row r.folder r.uid m) [
  | none ↦ failed rs BubbleFailure.not_found m
  | some x ↦
      let st = reflag w r x.0.flags m in
      let stay = bring_each w home refs (rs ++ st.results) moves st.mirror in
      let go = bring_each w home refs rs (moves ++ r ∷ []) st.mirror in
      elim st.failure [
        | some e ↦ failed rs (BubbleFailure.store_failed e) st.mirror
        | none ↦ if equal_fold r.folder home then stay else go
      ]
]

unfoldable pub bring_back : Writer → List Text → List Ref → Mirror → Brought
unfolding box_named
bring_back w boxes refs m = bring_each w (box_named boxes inbox).0 refs [] [] m

-- The refs of one thread.
pub record ThreadRefs : Type 0 where
  pub thread_id : ℕ
  pub refs : List Ref

-- The threads come in the order of their first placement.
unfoldable pub add_ref : ℕ → Ref → List ThreadRefs → List ThreadRefs
add_ref t r [] = record { thread_id = t; refs = r ∷ [] } ∷ []
add_ref t r (g ∷ gs) =
    let rest = add_ref t r gs in
    if g.thread_id == t then record g { refs = g.refs ++ r ∷ [] } ∷ gs else g ∷ rest

unfoldable pub by_thread : List BubbleRef → List ThreadRefs → List ThreadRefs
by_thread [] gs = gs
by_thread (b ∷ bs) gs = by_thread bs (
    if equal_fold b.folder inbox
    then gs
    else add_ref b.thread_id (record { folder = b.folder; uid = b.uid }) gs)

-- A thread that cannot be brought back is left for the next tick.
unfoldable pub return_each : Writer → List Text → List ThreadRefs → Mirror → Mirror
return_each w boxes [] m = m
return_each w boxes (g ∷ gs) m = return_each w boxes gs (bring_back w boxes g.refs m).mirror

-- One tick of bubbleLoop for an account.
unfoldable pub return_due : Writer → List Text → Time → Mirror → Mirror
return_due w boxes now m = return_each w boxes (by_thread (bubbles_due now m) []) m

-- The refs that carry one old keyword.
pub record OldKeyword : Type 0 where
  pub old : Text
  pub refs : List Ref

unfoldable pub add_old : Text → Ref → List OldKeyword → List OldKeyword
add_old k r [] = record { old = k; refs = r ∷ [] } ∷ []
add_old k r (g ∷ gs) =
    let rest = add_old k r gs in
    if text_eq g.old k then record g { refs = g.refs ++ r ∷ [] } ∷ gs else g ∷ rest

abbrev pub and_old : Text → Ref → Text → List OldKeyword → List OldKeyword
and_old new r old gs = if text_eq old [] || text_eq old new then gs else add_old old r gs

-- The keywords that a new one replaces, and the threads of the refs; a ref that the Mirror does not
-- hold ends it.
unfoldable pub old_keywords :
    Text → List Ref → List OldKeyword → List ℕ → Mirror → Option (List OldKeyword × List ℕ)
old_keywords new [] gs ts m = some (gs, ts)
old_keywords new (r ∷ refs) gs ts m = elim (mirror_row r.folder r.uid m) [
  | none ↦ none
  | some x ↦ old_keywords new refs (and_old new r (keyword_of x.0.flags) gs) (x.1.thread_id ∷ ts) m
]

-- One STORE for each old keyword, in the order in which they were met.
unfoldable pub strip_old : Writer → List OldKeyword → Mirror → Option WriteFailure × Mirror
strip_old w [] m = (none, m)
strip_old w (g ∷ gs) m =
    let st = change_flags w g.refs [] (g.old ∷ []) m in
    let rest = strip_old w gs st.mirror in
    elim st.failure [ none ↦ rest | some e ↦ (some e, st.mirror) ]

-- The threads that were touched, for the answer, or the failure.
pub record SetAside : Type 0 where
  pub touched : List ℕ
  pub failure : Option BubbleFailure
  pub mirror : Mirror

abbrev pub not_set : BubbleFailure → Mirror → SetAside
not_set e m = record { touched = []; failure = some e; mirror = m }

abbrev pub aside_moved : List ℕ → Written → Option WriteFailure → SetAside
aside_moved ts st none = record { touched = ts; failure = none; mirror = st.mirror }
aside_moved ts st (some e) = not_set (BubbleFailure.move_failed e) st.mirror

unfoldable pub move_aside : Writer → Text → List ℕ → List Ref → Mirror → SetAside
move_aside w aside ts [] m = record { touched = ts; failure = none; mirror = m }
move_aside w aside ts (r ∷ refs) m =
    let st = move w (r ∷ refs) aside m in aside_moved ts st st.failure

unfoldable pub all_keep : Text → List Result → Bool
all_keep k [] = true
all_keep k (r ∷ rs) = has_flag k r.flags && all_keep k rs

-- The new keyword is stored; the move waits for the server's answer.
unfoldable pub store_new : Writer → Text → Text → List ℕ → List Ref → List Ref → Mirror → SetAside
store_new w aside new ts refs to_aside m =
    let st = change_flags w refs (new ∷ []) [] m in
    elim st.failure [
      | some e ↦ not_set (BubbleFailure.store_failed e) st.mirror
      | none ↦
          if all_keep new st.results
          then move_aside w aside ts to_aside st.mirror
          else not_set BubbleFailure.not_kept st.mirror
    ]

abbrev pub stripped :
    Writer → Text → Text → List ℕ → List Ref → List Ref → Option WriteFailure × Mirror → SetAside
stripped w aside new ts refs to_aside (some e, m) = not_set (BubbleFailure.strip_failed e) m
stripped w aside new ts refs to_aside (none, m) = store_new w aside new ts refs to_aside m

unfoldable pub retime : Writer → Text → Text → List Ref → List Ref → Mirror → SetAside
retime w aside new refs to_aside m = elim (old_keywords new refs [] [] m) [
  | none ↦ not_set BubbleFailure.not_found m
  | some x ↦ stripped w aside new x.1 refs to_aside (strip_old w x.0 m)
]

abbrev pub is_empty_list : List Ref → Bool
is_empty_list [] = true
is_empty_list (r ∷ refs) = false

-- setBubble, up to the listing that it answers with.
unfoldable pub set_bubble : Writer → List Text → Time → List Ref → Mirror → SetAside
unfolding box_named
set_bubble w boxes when refs m =
    let to_aside = select (λ r. equal_fold r.folder inbox) refs in
    let (aside, has_aside) = box_named boxes box_aside in
    if not (is_empty_list to_aside) && not has_aside
    then not_set BubbleFailure.no_aside m
    else retime w aside (keyword when) refs to_aside m

-- The rows that setBubble answers with, after a success: the threads that it touched, in the box.
unfoldable pub set_rows : Time → List Text → SetAside → List BubbleRow
set_rows now boxes s =
    bubble_rows now (some s.touched) [] (bubbled (box_named boxes box_aside).0 s.mirror)

-- stripBubble: a ref that is not held is skipped, and a failure is only noted.
unfoldable pub carried : List Ref → List OldKeyword → Mirror → List OldKeyword
carried [] gs m = gs
carried (r ∷ refs) gs m = elim (mirror_row r.folder r.uid m) [
  | none ↦ carried refs gs m
  | some x ↦ carried refs (and_old [] r (keyword_of x.0.flags) gs) m
]

unfoldable pub strip_each : Writer → List OldKeyword → Mirror → Mirror
strip_each w [] m = m
strip_each w (g ∷ gs) m = strip_each w gs (change_flags w g.refs [] (g.old ∷ []) m).mirror

unfoldable pub strip_bubble : Writer → List Ref → Mirror → Mirror
strip_bubble w refs m = strip_each w (carried refs [] m) m
