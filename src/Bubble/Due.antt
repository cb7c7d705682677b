-- ===== src/Bubble/Due.antt =====
-- internal/mirror/bubble.go: the placements that carry a return time. The column bubble_at is what
-- PutPlacement and SetFlags derive from the flags wherever they write them, so it is read off them.
use mailbox_cli.Prelude.{
  ℕ, Bool, true, ◌&&◌, ◌||◌, not, Option, none, some, List, [], ◌∷◌, map, Text, text_eq, text_ltb,
  leb, ◌==◌, if◌then◌else◌, mem,
}
use mailbox_cli.Mirror.Types.{Message, Placement, Mirror}
use mailbox_cli.Clock.Calendar.{Time, minutes}
use mailbox_cli.Clock.Layout.{format, parse}
use mailbox_cli.Bubble.Keyword.{projected, projection_layout}

pub record BubbleRef : Type 0 where
  pub folder : Text
  pub uid : ℕ
  pub message_id : ℕ
  pub thread_id : ℕ
  pub subject : Text
  pub sender : Text
  pub bubble_at : Time

-- time.Time{}
abbrev pub zero_time : Time
zero_time = record { year = 1; month = 1; day = 1; hour = 0; minute = 0; second = 0 }

abbrev pub or_zero : Option Time → Time
or_zero none = zero_time
or_zero (some t) = t

-- JOIN messages m ON m.id = p.message_id
unfoldable pub joined : ℕ → List Message → Option Message
joined id [] = none
joined id (m ∷ ms) = let rest = joined id ms in if m.id == id then some m else rest

-- A row of the answer, with the text that it is ordered by.
pub record Row : Type 0 where
  pub at : Text
  pub ref : BubbleRef

unfoldable pub row_of : Placement → Message → Text → Row
row_of p m at = record {
  at = at;
  ref = record {
    folder = p.folder;
    uid = p.uid;
    message_id = p.message_id;
    thread_id = m.thread_id;
    subject = m.header.subject;
    sender = m.header.sender;
    bubble_at = or_zero (parse projection_layout at);
  };
}

-- An empty folder is every folder, and an empty bound is none.
unfoldable pub selects : Text → Text → Placement → Text → Bool
selects folder due_by p at =
    (text_eq folder [] || text_eq p.folder folder)
    && (text_eq due_by [] || not (text_ltb due_by at))

abbrev pub and_row : Text → Text → Placement → Option Message → Option Text → List Row → List Row
and_row folder due_by p none at rows = rows
and_row folder due_by p (some m) none rows = rows
and_row folder due_by p (some m) (some at) rows =
    if selects folder due_by p at then row_of p m at ∷ rows else rows

unfoldable pub rows_of : Text → Text → List Message → List Placement → List Row
unfolding selects row_of joined
rows_of folder due_by ms [] = []
rows_of folder due_by ms (p ∷ ps) =
    and_row folder due_by p (joined p.message_id ms) (projected p.flags)
      (rows_of folder due_by ms ps)

-- ORDER BY p.bubble_at, p.uid
unfoldable pub row_before : Row → Row → Bool
row_before x y = text_ltb x.at y.at || (text_eq x.at y.at && leb x.ref.uid y.ref.uid)

unfoldable pub insert_row : Row → List Row → List Row
unfolding row_before
insert_row x [] = x ∷ []
insert_row x (y ∷ ys) =
    let rest = insert_row x ys in if row_before x y then x ∷ y ∷ ys else y ∷ rest

unfoldable pub sort_rows : List Row → List Row
unfolding insert_row
sort_rows [] = []
sort_rows (x ∷ xs) = insert_row x (sort_rows xs)

unfoldable pub bubbled_by : Text → Text → Mirror → List BubbleRef
unfolding rows_of sort_rows
bubbled_by folder due_by m =
    map (λ (r : Row). r.ref) (sort_rows (rows_of folder due_by m.messages m.placements))

-- Mirror.Bubbled
unfoldable pub bubbled : Text → Mirror → List BubbleRef
unfolding bubbled_by
bubbled folder m = bubbled_by folder [] m

-- Mirror.BubblesDueAccount
unfoldable pub bubbles_due : Time → Mirror → List BubbleRef
unfolding bubbled_by
bubbles_due at m = bubbled_by [] (format projection_layout at) m

-- A row of the listing, and whether its instant has passed.
pub record BubbleRow : Type 0 where
  pub ref : BubbleRef
  pub due : Bool

abbrev pub keeps : Option (List ℕ) → ℕ → Bool
keeps none thread = true
keeps (some threads) thread = mem thread threads

-- bubbleRows: one row for each thread, its first, of the threads to keep.
unfoldable pub bubble_rows : Time → Option (List ℕ) → List ℕ → List BubbleRef → List BubbleRow
bubble_rows now keep seen [] = []
bubble_rows now keep seen (b ∷ bs) =
    let skip = not (keeps keep b.thread_id) || mem b.thread_id seen in
    let rest = bubble_rows now keep (if skip then seen else b.thread_id ∷ seen) bs in
    if skip then rest else record { ref = b; due = leb (minutes b.bubble_at) (minutes now) } ∷ rest
