-- ===== src/DavSync/Rooted.antt =====
-- internal/sync/davsync/write.go, absolute: a path is resolved against the server of the collection.
use mathlib.Core.List.{append_assoc, append-nil}
use mailbox_cli.Prelude.{ℕ, ◌≡◌, ◌≢◌, refl, ap, ◌∙◌, false, [], ◌∷◌, ◌++◌, Text, codes, mem}
use mailbox_cli.Prelude.Cuts.{cut_first, cut_none, cut}
use mailbox_cli.DavSync.Types.{Collection}
use mailbox_cli.DavSync.Urls.{trim_slash, root, resolve, absolute}

trim_slash-append :
    (s : Text) (x : ℕ) (t : Text) → trim_slash (s ++ (x ∷ t)) ≡ s ++ trim_slash (x ∷ t)
trim_slash-append [] x t = refl
trim_slash-append (y ∷ []) x t = refl
trim_slash-append (y ∷ z ∷ s) x t = ap (◌∷◌ y) (trim_slash-append (z ∷ s) x t)

-- The URL without its last slash.
abbrev url_of : Text → Text → Text → Text
url_of scheme host rest = scheme ++ (codes "://" ++ (host ++ rest))

resolve_lem :
    (scheme host rest p : Text)
    → mem 58 scheme ≡ false
    → resolve
        (url_of scheme host rest)
        (codes "/" ++ p)
        (cut (codes "://") (url_of scheme host rest))
      ≡ root scheme (host ++ rest) (cut (codes "/") (host ++ rest)) ++ (codes "/" ++ p)
resolve_lem scheme host rest p h = rw (cut_first 58 (codes "//") scheme (host ++ rest) h) refl

trim_slash-url_of :
    (scheme host : Text) (x : ℕ) (t : Text)
    → trim_slash (url_of scheme host (x ∷ t)) ≡ url_of scheme host (trim_slash (x ∷ t))
trim_slash-url_of scheme host x t =
    trim_slash-append scheme 58 (codes "//" ++ (host ++ (x ∷ t)))
    ∙ ap (λ u. scheme ++ u) (trim_slash-append (codes "://" ++ host) x t)

-- If the URL of a collection has a scheme without a colon, a host without a slash, and a path that is
-- longer than a slash, then a path resolves to itself on that scheme and host.
pub absolute_rooted :
    (c : Collection) (scheme host path p : Text)
    → mem 58 scheme ≡ false
    → mem 47 host ≡ false
    → path ≢ []
    → c.url ≡ url_of scheme host (codes "/" ++ path)
    → absolute c (codes "/" ++ p) ≡ url_of scheme host (codes "/" ++ p)
unfolding absolute
absolute_rooted c scheme host [] p hs hh hp url = absurd (hp refl)
absolute_rooted c scheme host (x ∷ path) p hs hh hp url =
    let rest = trim_slash (x ∷ path) in
    rw (url, trim_slash-url_of scheme host 47 (x ∷ path))
      (resolve_lem scheme host (47 ∷ rest) p hs
        ∙ rw (cut_first 47 [] host rest hh)
            (append_assoc scheme (codes "://" ++ host) (codes "/" ++ p)))

-- If a collection is at the root of its server, then a path loses the host.
pub absolute_without_path :
    (c : Collection) (scheme host p : Text)
    → mem 58 scheme ≡ false
    → mem 47 host ≡ false
    → c.url ≡ url_of scheme host (codes "/")
    → absolute c (codes "/" ++ p) ≡ scheme ++ (codes "://" ++ (codes "/" ++ p))
unfolding absolute
absolute_without_path c scheme host p hs hh url =
    rw (url, trim_slash-url_of scheme host 47 [])
      (resolve_lem scheme host [] p hs
        ∙ rw (append-nil host, cut_none 47 [] host hh)
            (append_assoc scheme (codes "://") (codes "/" ++ p)))
