-- ===== src/Bubble/Tests.antt =====
-- Bubbles at concrete instants.
use mailbox_cli.Prelude.{
  Bool-cases, inl, inr, text_eq, ℕ, ◌+◌, ◌<◌, ◌≤◌, ◌≡◌, ◌≢◌, refl, Bool, true, false, not, Option,
  none, some, List, [], ◌∷◌, ◌++◌, Text, codes, arith, any_of, text_ltb, ltb, trim, subst,
}
use mailbox_cli.Prelude.Cuts.{equal_fold}
use mailbox_cli.Mirror.Tx.{placed}
use mailbox_cli.Mirror.Types.{Message, Placement, Mirror}
use mailbox_cli.MailSync.Types.{FlagUpdate}
use mailbox_cli.MailSync.Writer.{Ref, Writer, uids_in}
use mailbox_cli.Clock.Calendar.{Time, days_in, weekday, minutes, day_number, add_days}
use mailbox_cli.Clock.Layout.{format, parse, year_text, chunk_text}
use mailbox_cli.Clock.Printed.{IsClock}
use mailbox_cli.Bubble.Keyword.{
  keyword, parse_keyword, projected, projection_layout, return_time, returned,
}
use mailbox_cli.Bubble.RoundTrip.{to_minute, return_time-keyword}
use mailbox_cli.Bubble.InOrder.{text_ltb-format}
use mailbox_cli.Bubble.When.{
  Timing, Hours, When, coming_weekday, one_if, how_many, is_given, bubble_hours, bubble_when,
}
use mailbox_cli.Bubble.Weekdays.{coming_weekday_lem}
use mailbox_cli.Bubble.Ahead.{bubble_when_ahead, weekend_passed}
use mailbox_cli.Bubble.Due.{bubbles_due, joined}
use mailbox_cli.Bubble.DueIn.{names, is_due_at, bubbles_due_iff}
use mailbox_cli.Bubble.Return.{box_named, bring_back, has_flag, inbox, mirror_row, set_bubble}
use mailbox_cli.Bubble.Away.{IsAway}
use mailbox_cli.Bubble.Home.{AreOnce, IsHome, bring_back-IsHome}
use mailbox_cli.Bubble.Kept.{Loses, IsRefused, set_bubble-IsRefused}

-- A Thursday and the Saturday after it.
abbrev thursday : Time
thursday = record { year = 2026; month = 9; day = 10; hour = 8; minute = 5; second = 30 }

abbrev saturday : Time
saturday = record { year = 2026; month = 9; day = 12; hour = 14; minute = 0; second = 0 }

thursday-IsClock : IsClock thursday
unfolding days_in
thursday-IsClock = record { ranges = refl; four_digits = omega arith }

saturday-IsClock : IsClock saturday
unfolding days_in
saturday-IsClock = record { ranges = refl; four_digits = omega arith }

keyword_text : keyword thursday ≡ codes "$bubble-20260910T0805"
unfolding keyword format year_text
keyword_text = refl

abbrev seen : Text
seen = codes "\\Seen"

seen_other : parse_keyword seen ≡ none
unfolding parse_keyword
seen_other = refl

return_time-keyword_example :
    (return_time ((seen ∷ []) ++ keyword thursday ∷ []) ≡ some (to_minute thursday))
    × (projected ((seen ∷ []) ++ keyword thursday ∷ []) ≡ some (format projection_layout thursday))
return_time-keyword_example =
    return_time-keyword thursday (seen ∷ []) [] thursday-IsClock (seen_other, tt)

text_ltb-format_example :
    text_ltb (format projection_layout thursday) (format projection_layout saturday)
    ≡ ltb (minutes thursday) (minutes saturday)
text_ltb-format_example = text_ltb-format thursday saturday thursday-IsClock saturday-IsClock

coming_weekday_lem_example :
    (n : ℕ) × (coming_weekday thursday 4 true ≡ add_days n thursday)
    × (weekday (coming_weekday thursday 4 true) ≡ 4)
    × (day_number (coming_weekday thursday 4 true) ≡ day_number thursday + n)
    × (one_if true ≤ n)
    × (n < 7 + one_if true)
    × ((k : ℕ) → one_if true ≤ k → k < n → weekday (add_days k thursday) ≢ 4)
coming_weekday_lem_example =
    coming_weekday_lem thursday 4 true thursday-IsClock.ranges (omega arith)

abbrev unset : Hours
unset = record { morning = 0; evening = 0 }

abbrev weekend_only : Timing
weekend_only = record { now = false; tomorrow = false; weekend = true; next_week = false; on = [] }

weekend_only_once : how_many weekend_only ≡ 1
unfolding how_many trim
weekend_only_once = refl

weekend_only_plain : is_given (trim weekend_only.on) ≡ false
unfolding is_given trim
weekend_only_plain = refl

thursday-weekday : weekday thursday ≡ 4
unfolding weekday
thursday-weekday = refl

saturday-weekday : weekday saturday ≡ 6
unfolding weekday
saturday-weekday = refl

saturday_late : (bubble_hours unset).morning < saturday.hour
unfolding bubble_hours
saturday_late = omega arith

bubble_when_ahead_example :
    (t : Time) × (bubble_when unset thursday weekend_only ≡ When.at t)
    × (minutes thursday < minutes t)
bubble_when_ahead_example =
    bubble_when_ahead unset thursday weekend_only thursday-IsClock.ranges weekend_only_once refl
      weekend_only_plain (λ f e. omega (arith, thursday-weekday, e))

weekend_passed_example :
    (t : Time) × (bubble_when unset saturday weekend_only ≡ When.at t)
    × (minutes t < minutes saturday)
weekend_passed_example =
    weekend_passed unset saturday weekend_only weekend_only_once refl saturday-weekday saturday_late

abbrev note : Message
note = record {
  id = 3;
  key = codes "k";
  header = record {
    date = none;
    subject = codes "Trip";
    sender = codes "ann@example.com";
    to = [];
    cc = [];
    in_reply_to = [];
    references = [];
    list_unsubscribe = [];
    list_unsubscribe_post = [];
  };
  refs = [];
  thread_id = 3;
  text_plain = [];
  text_html = [];
  indexed = [];
  mirrored = true;
  parts = [];
}

abbrev set_aside : Placement
set_aside = record {
  folder = codes "INBOX/Aside";
  uid = 7;
  message_id = 3;
  flags = seen ∷ codes "$bubble-20260910T0805" ∷ [];
  internal_date = none;
  size = 10;
}

abbrev held : Mirror
held = record {
  account = codes "a";
  folders = [];
  messages = note ∷ [];
  placements = set_aside ∷ [];
  journal = [];
}

bubbles_due_iff_example :
    any_of (names (codes "INBOX/Aside") 7) (bubbles_due saturday held)
    ≡ any_of (is_due_at (codes "INBOX/Aside") 7 saturday held.messages) held.placements
bubbles_due_iff_example = bubbles_due_iff (codes "INBOX/Aside") 7 saturday held saturday-IsClock

due_on_saturday : any_of (names (codes "INBOX/Aside") 7) (bubbles_due saturday held) ≡ true
unfolding bubbles_due projected return_time parse_keyword format parse chunk_text year_text text_ltb
    days_in
due_on_saturday = refl

-- A server that takes every STORE, and keeps no keyword.
abbrev forgetful : Writer
forgetful = record {
  mirrored = codes "INBOX" ∷ codes "INBOX/Aside" ∷ [];
  store_flags = λ folder uids add remove. some (record { uid = 7; flags = seen ∷ [] } ∷ []);
  move = λ folder uids dest. some [];
}

forgetful-Loses : Loses forgetful (keyword saturday)
unfolding has_flag keyword format
forgetful-Loses folder uids us h = subst (λ o. lost o ≡ true) h refl
  where
    lost : Option (List FlagUpdate) → Bool
    lost none = false
    lost (some xs) = any_of (λ (u : FlagUpdate). not (has_flag (keyword saturday) u.flags)) xs

set_bubble-IsRefused_example : IsRefused held (
    set_bubble forgetful forgetful.mirrored saturday
      (record { folder = codes "INBOX/Aside"; uid = 7 } ∷ [])
      held)
set_bubble-IsRefused_example =
    set_bubble-IsRefused forgetful forgetful.mirrored saturday
      (record { folder = codes "INBOX/Aside"; uid = 7 }) [] held forgetful-Loses

-- A server that takes what it is asked.
abbrev willing : Writer
willing = record forgetful {
  store_flags = λ folder uids add remove. some (record { uid = 7; flags = returned ∷ [] } ∷ []);
  move = λ folder uids dest. some ((7, 9) ∷ []);
}

abbrev aside_ref : Ref
aside_ref = record { folder = codes "INBOX/Aside"; uid = 7 }

aside_once : AreOnce (aside_ref ∷ [])
unfolding uids_in
aside_once f = elim (Bool-cases (text_eq aside_ref.folder f)) [
  | inl e ↦ rw e (refl, tt)
  | inr e ↦ rw e tt
]

aside-IsAway : IsAway (box_named willing.mirrored inbox).0 held aside_ref
unfolding box_named equal_fold mirror_row placed joined
aside-IsAway = record { outside = refl; known = refl }

bring_back-IsHome_example :
    IsHome
      (box_named willing.mirrored inbox).0
      (aside_ref ∷ [])
      held
      (bring_back willing willing.mirrored (aside_ref ∷ []) held)
bring_back-IsHome_example =
    bring_back-IsHome willing willing.mirrored (aside_ref ∷ []) held
      (λ folder uids add remove. (record { uid = 7; flags = returned ∷ [] } ∷ [], refl))
      (λ folder uids dest. ((7, 9) ∷ [], refl)) aside_once (aside-IsAway, tt)
