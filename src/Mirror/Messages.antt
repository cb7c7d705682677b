-- ===== src/Mirror/Messages.antt =====
-- internal/mirror/write.go: the messages of the Mirror and their threads.
use mailbox_cli.Prelude.{
  ℕ, suc, max, Bool, true, false, ◌&&◌, ◌||◌, not, Option, none, some, List, [], ◌∷◌, ◌++◌, map,
  Text, text_eq, ltb, ◌==◌, if◌then◌else◌, select, mem,
}
use mailbox_cli.Mirror.Types.{Header, Part, Message, Mirror}

unfoldable pub has_text : Text → List Text → Bool
has_text t [] = false
has_text t (x ∷ xs) = text_eq x t || has_text t xs

unfoldable pub find_message : Text → List Message → Option Message
find_message key [] = none
find_message key (x ∷ xs) =
    let rest = find_message key xs in if text_eq x.key key then some x else rest

unfoldable pub max_message_id : List Message → ℕ
max_message_id [] = 0
max_message_id (x ∷ xs) = max x.id (max_message_id xs)

-- The Message-IDs that a new message names, without itself.
unfoldable pub refs_of : Text → Header → List Text
refs_of key h =
    select (λ r. not (text_eq r []) && not (text_eq r key)) (h.in_reply_to ++ h.references)

-- The threads that a new message is linked to: those of the messages that it names, and those of
-- the messages that name it.
unfoldable pub linked_threads : Text → List Text → List Message → List ℕ
linked_threads key refs messages =
    select (λ t. not (t == 0))
      (map (λ (x : Message). x.thread_id)
        (select (λ x. has_text x.key refs || has_text key x.refs) messages))

-- The oldest of the linked threads, or the message's own id.
unfoldable pub oldest : ℕ → List ℕ → ℕ
oldest t [] = t
oldest t (x ∷ xs) = oldest (if ltb x t then x else t) xs

-- UPDATE messages SET thread_id = ? for each of the linked threads
unfoldable pub merge_threads : ℕ → List ℕ → Message → Message
merge_threads t linked x = if mem x.thread_id linked then record x { thread_id = t } else x

-- Tx.thread, on the messages that were there and the new one
unfoldable pub thread : Message → List Message → List Message
thread x messages =
    let linked = linked_threads x.key x.refs messages in
    let t = oldest x.id linked in
    map (merge_threads t linked) messages ++ record x { thread_id = t } ∷ []

pub record Upserted : Type 0 where
  pub id : ℕ
  pub has_body : Bool
  pub mirror : Mirror

unfoldable pub new_message : ℕ → Text → Header → Message
new_message id key h = record {
  id = id;
  key = key;
  header = h;
  refs = refs_of key h;
  thread_id = 0;
  text_plain = [];
  text_html = [];
  indexed = [];
  mirrored = false;
  parts = [];
}

unfoldable pub upsert_found : Text → Header → Mirror → Option Message → Upserted
upsert_found key h m (some x) = record { id = x.id; has_body = x.mirrored; mirror = m }
upsert_found key h m none =
    let id = suc (max_message_id m.messages) in
    record {
      id = id;
      has_body = false;
      mirror = record m { messages = thread (new_message id key h) m.messages };
    }

-- Tx.UpsertMessage
unfoldable pub upsert_message : Text → Header → Mirror → Upserted
upsert_message key h m = upsert_found key h m (find_message key m.messages)

unfoldable pub update_message : ℕ → (Message → Message) → List Message → List Message
update_message id f [] = []
update_message id f (x ∷ xs) = (if x.id == id then f x else x) ∷ update_message id f xs

-- Tx.SetBody
unfoldable pub set_body : ℕ → Text → Text → Text → Mirror → Mirror
set_body id plain html indexed m = record m {
  messages =
      update_message id
        (λ x. record x { text_plain = plain; text_html = html; indexed = indexed; mirrored = true })
        m.messages;
}

-- A part with the path of an earlier one replaces it.
unfoldable pub put_part : Part → List Part → List Part
put_part p [] = p ∷ []
put_part p (x ∷ xs) = let rest = put_part p xs in if text_eq x.path p.path then p ∷ xs else x ∷ rest

unfoldable pub collect_parts : List Part → List Part → List Part
collect_parts [] out = out
collect_parts (p ∷ ps) out = collect_parts ps (put_part p out)

-- Tx.PutParts
unfoldable pub put_parts : ℕ → List Part → Mirror → Mirror
put_parts id parts m = record m {
  messages = update_message id (λ x. record x { parts = collect_parts parts [] }) m.messages;
}

-- Tx.ThreadOf: zero where there is no such message
unfoldable pub thread_of : ℕ → List Message → ℕ
thread_of id [] = 0
thread_of id (x ∷ xs) = let rest = thread_of id xs in if x.id == id then x.thread_id else rest
