-- ===== src/Daemon/Ids.antt =====
-- internal/daemon/id.go, and accountNamed and accountNames of account.go.
use mailbox_cli.Prelude.{
  ℕ, ◌^◌, Bool, ◌&&◌, ◌||◌, not, Option, none, some, List, [], ◌∷◌, ◌++◌, map, Text, codes, text_eq,
  trim, ◌==◌, if◌then◌else◌, any_of, mem,
}
use mailbox_cli.Prelude.Cuts.{strip_prefix, cut, cut_last, equal_fold}
use mailbox_cli.Prelude.Decimal.{decimal}
use mailbox_cli.Prelude.Numerals.{parse_uint}
use mailbox_cli.Routing.Destinations.{Destination, Spec, spec_of, parse_destination}

pub record Account : Type 0 where
  pub name : Text
  pub primary : Bool
  pub mirrored : List Text

-- The Primary Account and the others.
pub record Accounts : Type 0 where
  pub primary : Account
  pub others : List Account

unfoldable pub accounts : Accounts → List Account
accounts d = d.primary ∷ d.others

unfoldable pub account_names : Accounts → List Text
account_names d = map (λ (a : Account). a.name) (accounts d)

unfoldable pub find_account : Text → List Account → Option Account
find_account name [] = none
find_account name (a ∷ others) =
    let rest = find_account name others in if equal_fold a.name name then some a else rest

unfoldable pub account_named : Accounts → Text → Option Account
account_named d [] = some d.primary
account_named d (c ∷ cs) = find_account (c ∷ cs) (accounts d)

abbrev pub is_empty : Text → Bool
is_empty t = text_eq t []

-- The account and the rest; an empty account is none. A prefix counts where it names an account.
abbrev pub split_at : List Text → Text → Option (Text × Text) → Text × Text
split_at names v none = ([], v)
split_at names v (some (head, rest)) =
    if not (is_empty head) && any_of (λ n. equal_fold n head) names then (head, rest) else ([], v)

unfoldable pub split_account : Text → List Text → Text × Text
split_account value names =
    let v = trim value in
    if any_of (λ n. not (is_empty n) && equal_fold n v) names
    then (v, [])
    else split_at names v (cut (codes "/") v)

unfoldable pub qualify : Account → Text → Text
qualify a id = if a.primary || is_empty a.name then id else a.name ++ (codes "/" ++ id)

-- Destination.Box
abbrev pub files_of : Option Spec → Text
files_of none = []
files_of (some s) = s.files

unfoldable pub box_of : Destination → Text
box_of d = files_of (spec_of d)

-- The first name that is the same but for case.
unfoldable pub find_fold : Text → List Text → Option Text
find_fold name [] = none
find_fold name (k ∷ known) =
    let rest = find_fold name known in if equal_fold k name then some k else rest

abbrev pub routed_box : Text → Option Destination → Text
routed_box name none = name
routed_box name (some d) = if is_empty (box_of d) then name else box_of d

abbrev pub child_box : Text → Option Text → Text
child_box name none = routed_box name (parse_destination name)
child_box name (some k) = k

abbrev pub known_box : Text → List Text → Option Text → Text
known_box name known none = child_box name (find_fold (codes "INBOX/" ++ name) known)
known_box name known (some k) = k

unfoldable pub resolve_box : Text → List Text → Text
resolve_box name known =
    if equal_fold name (codes "inbox")
    then codes "INBOX"
    else known_box name known (find_fold name known)

abbrev pub unprefixed : Text → List Text → Option Text → Text
unprefixed folder known none = folder
unprefixed folder known (some short) =
    if any_of (λ k. not (equal_fold k folder) && equal_fold k short) known then folder else short

unfoldable pub short_box : Text → List Text → Text
short_box folder known = unprefixed folder known (strip_prefix (codes "INBOX/") folder)

unfoldable pub format_message_id : Text → ℕ → List Text → Text
format_message_id folder uid known =
    if text_eq folder (codes "INBOX")
    then decimal uid
    else short_box folder known ++ (codes ":" ++ decimal uid)

-- ParseUint(v, 10, 32), and not 0
abbrev pub uid_in : Text → Option ℕ → Option (Text × ℕ)
uid_in folder none = none
uid_in folder (some uid) = if uid == 0 then none else some (folder, uid)

abbrev pub parse_at : List Text → Text → Text → Option (Text × Text) → Option (Text × ℕ)
parse_at known bare v none = uid_in bare (parse_uint (2 ^ 32) v)
parse_at known bare v (some (box, rest)) =
    uid_in (resolve_box (trim box) known) (parse_uint (2 ^ 32) (trim rest))

unfoldable pub parse_message_id : Text → List Text → Text → Option (Text × ℕ)
parse_message_id value known bare =
    let v = trim value in if is_empty v then none else parse_at known bare v (cut_last b':' v)

unfoldable pub message_id : Account → Text → ℕ → Text
message_id a folder uid = qualify a (format_message_id folder uid a.mirrored)

unfoldable pub attachment_id : Account → Text → ℕ → ℕ → Text
attachment_id a folder uid index = message_id a folder uid ++ (codes ":" ++ decimal index)

-- Atoi, where it gives more than 0
unfoldable pub parse_index : Text → Option ℕ
parse_index [] = none
parse_index (c ∷ cs) = if c == b'+' then parse_uint (2 ^ 63) cs else parse_uint (2 ^ 63) (c ∷ cs)

abbrev pub with_index : Option (Text × ℕ) → ℕ → Option (Text × ℕ × ℕ)
with_index none n = none
with_index (some (folder, uid)) n = some (folder, uid, n)

abbrev pub or_whole : Option (Text × ℕ × ℕ) → Option (Text × ℕ × ℕ) → Option (Text × ℕ × ℕ)
or_whole none o = o
or_whole (some x) o = some x

abbrev pub indexed : Text → List Text → Option ℕ → Option (Text × ℕ × ℕ)
indexed id known none = none
indexed id known (some n) =
    if n == 0 then none else with_index (parse_message_id id known (codes "INBOX")) n

abbrev pub index_after : List Text → Option (Text × Text) → Option (Text × ℕ × ℕ)
index_after known none = none
index_after known (some (id, rest)) = indexed id known (parse_index rest)

unfoldable pub parse_attachment_id : Text → List Text → Option (Text × ℕ × ℕ)
parse_attachment_id value known =
    let v = trim value in
    or_whole (index_after known (cut_last b':' v))
      (with_index (parse_message_id v known (codes "INBOX")) 0)

abbrev pub on_account : Account → Text → Text → Option (Text × ℕ) → Option (Account × Text × ℕ)
on_account a rest box none = none
on_account a rest box (some (folder, uid)) = some (a, folder, uid)

abbrev pub home_or_named : Accounts → Account → Text → Option Account
home_or_named d home [] = some home
home_or_named d home (c ∷ cs) = account_named d (c ∷ cs)

-- A bare uid is in the box that is given, where there is one.
abbrev pub resolve_in : Text → Option Text → Account → Option (Account × Text × ℕ)
resolve_in rest none a = none
resolve_in rest (some box) a = on_account a rest box (parse_message_id rest a.mirrored box)

abbrev pub resolve_with :
    Text → (Account → Option Text) → Option Account → Option (Account × Text × ℕ)
resolve_with rest bare none = none
resolve_with rest bare (some a) = resolve_in rest (if mem b':' rest then some [] else bare a) a

unfoldable pub resolve_id_on :
    Accounts → Text → Account → (Account → Option Text) → Option (Account × Text × ℕ)
resolve_id_on d value home bare =
    let (name, rest) = split_account value (account_names d) in
    resolve_with rest bare (home_or_named d home name)

unfoldable pub resolve_id : Accounts → Text → Option (Account × Text × ℕ)
resolve_id d value = resolve_id_on d value d.primary (λ a. some (codes "INBOX"))
