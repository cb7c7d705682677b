-- ===== src/DavSync/Urls.antt =====
-- internal/sync/davsync/write.go: the names of objects.
use mailbox_cli.Prelude.{◌||◌, Option, none, some, [], ◌∷◌, ◌++◌, Text, codes, ◌==◌, if◌then◌else◌}
use mailbox_cli.Prelude.Cuts.{has_prefix, cut}
use mailbox_cli.DavSync.Types.{Collection, Driver}

-- strings.TrimSuffix for a slash
abbrev pub trim_slash : Text → Text
trim_slash [] = []
trim_slash (x ∷ []) = if x == 47 then [] else x ∷ []
trim_slash (x ∷ y ∷ s) = x ∷ trim_slash (y ∷ s)

-- The path of a collection's URL, or the URL where it has none.
abbrev pub path_of : Driver → Text → Text
path_of d base = elim (d.url_path base) [ none ↦ base | some path ↦ trim_slash path ]

-- Href
unfoldable pub object_href : Driver → Collection → Text → Text
object_href d c uid = path_of d (trim_slash c.url) ++ (codes "/" ++ (uid ++ codes ".ics"))

-- The root of a URL, cut at its scheme and then at its path.
abbrev pub root : Text → Text → Option (Text × Text) → Text
root scheme rest none = scheme ++ codes "://"
root scheme rest (some (host, path)) = scheme ++ (codes "://" ++ host)

abbrev pub resolve : Text → Text → Option (Text × Text) → Text
resolve base href none = href
resolve base href (some (scheme, rest)) =
    if has_prefix (codes "/") href
    then root scheme rest (cut (codes "/") rest) ++ href
    else base ++ (codes "/" ++ href)

-- Writer.absolute
unfoldable pub absolute : Collection → Text → Text
absolute c href =
    if has_prefix (codes "http://") href || has_prefix (codes "https://") href
    then href
    else resolve (trim_slash c.url) href (cut (codes "://") (trim_slash c.url))
