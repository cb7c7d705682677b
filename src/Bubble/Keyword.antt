-- ===== src/Bubble/Keyword.antt =====
-- internal/bubble/bubble.go: the keyword that names the instant at which a thread is due back.
use mailbox_cli.Prelude.{Option, none, some, List, [], ◌∷◌, ◌++◌, Text, codes, if◌then◌else◌}
use mailbox_cli.Prelude.Cuts.{strip_prefix, has_prefix}
use mailbox_cli.Clock.Calendar.{Time}
use mailbox_cli.Clock.Layout.{Chunk, format, parse}

-- Prefix
abbrev pub prefix : Text
prefix = codes "$bubble-"

-- Returned
abbrev pub returned : Text
returned = codes "$bubbled"

-- keywordLayout
abbrev pub keyword_layout : List Chunk
keyword_layout =
    Chunk.long_year
    ∷ Chunk.zero_month
    ∷ Chunk.zero_day
    ∷ Chunk.sign b'T'
    ∷ Chunk.hour24
    ∷ Chunk.zero_minute
    ∷ []

-- ProjectionLayout
abbrev pub projection_layout : List Chunk
projection_layout =
    Chunk.long_year
    ∷ Chunk.sign b'-'
    ∷ Chunk.zero_month
    ∷ Chunk.sign b'-'
    ∷ Chunk.zero_day
    ∷ Chunk.sign b'T'
    ∷ Chunk.hour24
    ∷ Chunk.sign b':'
    ∷ Chunk.zero_minute
    ∷ []

unfoldable pub keyword : Time → Text
keyword t = prefix ++ format keyword_layout t

abbrev pub parse_rest : Option Text → Option Time
parse_rest none = none
parse_rest (some rest) = parse keyword_layout rest

unfoldable pub parse_keyword : Text → Option Time
parse_keyword k = parse_rest (strip_prefix prefix k)

abbrev pub first_of : Option Time → Option Time → Option Time
first_of (some t) rest = some t
first_of none rest = rest

-- Of
unfoldable pub return_time : List Text → Option Time
unfolding parse_keyword
return_time [] = none
return_time (f ∷ flags) = first_of (parse_keyword f) (return_time flags)

-- The empty text where there is none.
unfoldable pub keyword_of : List Text → Text
keyword_of [] = []
keyword_of (f ∷ flags) = let rest = keyword_of flags in if has_prefix prefix f then f else rest

abbrev pub in_projection : Option Time → Option Text
in_projection none = none
in_projection (some t) = some (format projection_layout t)

unfoldable pub projected : List Text → Option Text
unfolding return_time
projected flags = in_projection (return_time flags)
