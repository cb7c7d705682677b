-- ===== src/Prelude/Words.antt =====
-- Words that are joined by spaces are read back.
use mailbox_cli.Prelude.{
  ◌≡◌, ◌≢◌, refl, sym, ap, ◌∙◌, false, List, [], ◌∷◌, ◌++◌, Text, codes, is_space, close_field,
  fields_from, fields, join, All,
}
use mathlib.Core.List.{append_assoc, append-nil}

-- A word is not empty and holds no white space.
pub record IsWord (t : Text) : Type 0 where
  pub some_text : t ≢ []
  pub no_space : All (λ c. is_space c ≡ false) t

fields_from-word :
    (field word rest : Text)
    → All (λ c. is_space c ≡ false) word
    → fields_from field (word ++ rest) ≡ fields_from (field ++ word) rest
fields_from-word field [] rest h = rw append-nil
fields_from-word field (c ∷ cs) rest h =
    rw h.0 (fields_from-word (field ++ c ∷ []) cs rest h.1 ∙ rw append_assoc refl)

close_word : (word : Text) (out : List Text) → word ≢ [] → close_field word out ≡ word ∷ out
close_word [] out h = absurd (h refl)
close_word (c ∷ cs) out h = refl

one_word : (word : Text) → IsWord word → fields word ≡ word ∷ []
one_word word h =
    ap fields (sym (append-nil word))
    ∙ fields_from-word [] word [] h.no_space
    ∙ close_word word [] h.some_text

pub fields-join : (words : List Text) → All IsWord words → fields (join (codes " ") words) ≡ words
fields-join [] h = refl
fields-join (x ∷ []) h = one_word x h.0
fields-join (x ∷ y ∷ words) h =
    ap fields (append_assoc x (codes " ") (join (codes " ") (y ∷ words)))
    ∙ fields_from-word [] x (codes " " ++ join (codes " ") (y ∷ words)) h.0.no_space
    ∙ close_word x (fields (join (codes " ") (y ∷ words))) h.0.some_text
    ∙ ap (λ (more : List Text). x ∷ more) (fields-join (y ∷ words) h.1)
