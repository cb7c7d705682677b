-- ===== src/Bubble/RoundTrip.antt =====
-- internal/bubble/bubble.go: the keyword of an instant is read back as the instant.
use mailbox_cli.Prelude.{◌≡◌, refl, ◌∙◌, none, some, List, [], ◌∷◌, ◌++◌, Text, arith, All, true}
use mailbox_cli.Clock.Calendar.{Time, in_range}
use mailbox_cli.Clock.Layout.{format}
use mailbox_cli.Clock.Printed.{IsClock, parse-format}
use mailbox_cli.Bubble.Keyword.{
  keyword_layout, projection_layout, keyword, parse_keyword, return_time, projected,
}

-- A time to the minute.
abbrev pub to_minute : Time → Time
to_minute t = record t { second = 0 }

to_minute-in_range : (t : Time) → IsClock t → in_range (to_minute t) ≡ true
to_minute-in_range t c = ground (arith, c.ranges)

pub parse_keyword-keyword : (t : Time) → IsClock t → parse_keyword (keyword t) ≡ some (to_minute t)
unfolding parse_keyword keyword
parse_keyword-keyword t c = parse-format keyword_layout t tt c (to_minute-in_range t c)

-- No flag is read as an instant.
abbrev pub AreOthers : List Text → Type 0
AreOthers flags = All (λ f. parse_keyword f ≡ none) flags

return_time-append :
    (flags more : List Text) → AreOthers flags → return_time (flags ++ more) ≡ return_time more
unfolding return_time
return_time-append [] more h = refl
return_time-append (f ∷ flags) more (h, hs) = rw h (return_time-append flags more hs)

-- The keyword of an instant, among flags that name none, is read as the instant, to the minute, and
-- it is what is stripped if no flag before it has the prefix. The column bubble_at is its text.
pub return_time-keyword :
    (t : Time) (flags more : List Text)
    → IsClock t
    → AreOthers flags
    → (return_time (flags ++ keyword t ∷ more) ≡ some (to_minute t))
      × (projected (flags ++ keyword t ∷ more) ≡ some (format projection_layout t))
unfolding projected format
return_time-keyword t flags more c h =
    let e : return_time (flags ++ keyword t ∷ more) ≡ some (to_minute t) =
      return_time-append flags (keyword t ∷ more) h ∙ found in
    (e, rw e refl)
  where
    found : return_time (keyword t ∷ more) ≡ some (to_minute t)
    found = unfold return_time in rw (parse_keyword-keyword t c) refl
