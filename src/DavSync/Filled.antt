-- ===== src/DavSync/Filled.antt =====
-- internal/sync/davsync/davsync.go, Sync: after the multiget every item carries what the server has.
use mailbox_cli.Prelude.{
  ◌≡◌, refl, Bool, true, false, Option, none, some, List, [], ◌∷◌, Text, text_eq, text_eq_iff,
  text_eq_refl, arith, if◌then◌else◌, any_of, All,
}
use mailbox_cli.DavSync.Types.{Collection, Change, Driver, ok}
use mailbox_cli.DavSync.Store.{href_key}
use mailbox_cli.DavSync.Reconciler.{is_named, missing, find_change, filled, fill, ask_missing}
use mailbox_cli.DavSync.Held.{Version}
use mailbox_cli.DavSync.Server.{fetched, fetch, Says, is_touched}

-- An item that is deleted, or carries the version that the server has.
abbrev pub Carries : Change → Option Version → Type 0
Carries it v = if it.deleted then v ≡ none else v ≡ some (record { etag = it.etag; text = it.text })

abbrev pub is_asked : Text → List Text → Bool
is_asked href = any_of (λ h. text_eq h href)

-- What a multiget finds at an href, as an item.
abbrev found_at : Text → Option Version → Option Change
found_at href none = none
found_at href (some v) =
    some (record { href = href; etag = v.etag; text = v.text; deleted = false })

find_change-fetch :
    (d : Driver) (at : Text → Option Version) (href : Text) (hrefs : List Text)
    → find_change href (fetch (href_key d) at hrefs)
      ≡ (if is_asked href hrefs then found_at href (at (href_key d href)) else none)
unfolding find_change
find_change-fetch d at href [] = ground arith
find_change-fetch d at href (h ∷ hrefs) =
    by_version (at (href_key d h)) refl (find_change-fetch d at href hrefs)
  where
    same : h ≡ href → at (href_key d h) ≡ at (href_key d href)
    same e = rw e

    by_version :
        (o : Option Version)
        → at (href_key d h) ≡ o
        → find_change href (fetch (href_key d) at hrefs)
          ≡ (if is_asked href hrefs then found_at href (at (href_key d href)) else none)
        → find_change href (fetched h o (fetch (href_key d) at hrefs))
          ≡ (if is_asked href (h ∷ hrefs) then found_at href (at (href_key d href)) else none)
    by_version none e ih = ground (arith, ih, text_eq_iff h href, same, e)
    by_version (some v) e ih = ground (arith, ih, text_eq_iff h href, same, e)

filled-Carries :
    (it : Change) (v : Option Version) (asked : Bool)
    → Says it v
    → (is_named it ≡ true → asked ≡ true)
    → Carries (filled it (if asked then found_at it.href v else none)) v
filled-Carries it none true says named = ground (arith, says)
filled-Carries it (some v) true says named = ground (arith, says)
filled-Carries it none false says named = ground (arith, says, named)
filled-Carries it (some v) false says named = ground (arith, says, named)

filled_href : (it : Change) (o : Option Change) → (filled it o).href ≡ it.href
filled_href it none = refl
filled_href it (some f) = refl

module _ (d : Driver) (at : Text → Option Version) where
  -- Every item carries what the server has.
  abbrev pub AllCarry : List Change → Type 0
  AllCarry = All (λ it. Carries it (at (href_key d it.href)))

  abbrev AllAsked : List Text → List Change → Type 0
  AllAsked hrefs = All (λ it. is_named it ≡ true → is_asked it.href hrefs ≡ true)

  abbrev answer : Text → Bool → Option Change
  answer href asked = if asked then found_at href (at (href_key d href)) else none

  fill-AllCarry :
      (hrefs : List Text) (items : List Change)
      → All (λ it. Says it (at (href_key d it.href))) items
      → AllAsked hrefs items
      → AllCarry (fill (fetch (href_key d) at hrefs) items)
  unfolding fill
  fill-AllCarry hrefs [] says asked = tt
  fill-AllCarry hrefs (it ∷ items) (says, more) (asked, rest) = (
    rw
        (
          find_change-fetch d at it.href hrefs,
          filled_href it (answer it.href (is_asked it.href hrefs)),
        )
        (filled-Carries it (at (href_key d it.href)) (is_asked it.href hrefs) says asked),
    fill-AllCarry hrefs items more rest,
  )

  -- The hrefs that are asked for are those of the named items.
  asked-AllAsked :
      (hrefs : List Text) (items : List Change)
      → ((h : Text) → is_asked h (missing items) ≡ true → is_asked h hrefs ≡ true)
      → AllAsked hrefs items
  unfolding missing
  asked-AllAsked hrefs [] sub = tt
  asked-AllAsked hrefs (it ∷ items) sub = (
    λ n. sub it.href (ground (arith, n, text_eq_refl it.href)),
    asked-AllAsked hrefs items (λ h k. sub h (ground (arith, k))),
  )

  unnamed-AllCarry :
      (items : List Change)
      → All (λ it. Says it (at (href_key d it.href))) items
      → missing items ≡ []
      → AllCarry items
  unfolding missing
  unnamed-AllCarry [] says h = tt
  unnamed-AllCarry (it ∷ items) (says, more) h =
      (ground (arith, says, h), unnamed-AllCarry items more (ground (arith, h)))

  is_touched-fill :
      (fs items : List Change) (key : Text)
      → is_touched d key (fill fs items) ≡ is_touched d key items
  unfolding fill
  is_touched-fill fs [] key = refl
  is_touched-fill fs (it ∷ items) key =
      ground (arith, is_touched-fill fs items key, filled_href it (find_change it.href fs))

  -- If every item says what the server has, and a multiget fetches what there is, then the items that
  -- are written carry what the server has, and are about the same keys.
  pub ask_missing-AllCarry :
      (c : Collection) (items : List Change)
      → ((hrefs : List Text) → d.multi_get c.url hrefs ≡ some (fetch (href_key d) at hrefs))
      → All (λ it. Says it (at (href_key d it.href))) items
      → (done : List Change) × (ask_missing d c items (missing items) ≡ ok done)
        × AllCarry done
        × ((key : Text) → is_touched d key done ≡ is_touched d key items)
  ask_missing-AllCarry c items fetches says = by_missing (missing items) refl
    where
      by_missing :
          (hrefs : List Text)
          → missing items ≡ hrefs
          → (done : List Change) × (ask_missing d c items hrefs ≡ ok done)
            × AllCarry done
            × ((key : Text) → is_touched d key done ≡ is_touched d key items)
      by_missing [] e =
          (items, unfold ask_missing in refl, unnamed-AllCarry items says e, λ key. refl)
      by_missing (h ∷ hs) e = (
        fill (fetch (href_key d) at (h ∷ hs)) items,
        unfold ask_missing in rw (fetches (h ∷ hs)),
        fill-AllCarry (h ∷ hs) items says (asked-AllAsked (h ∷ hs) items (λ g k. rw e at k)),
        λ key. is_touched-fill (fetch (href_key d) at (h ∷ hs)) items key,
      )
