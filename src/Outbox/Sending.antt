-- ===== src/Outbox/Sending.antt =====
-- internal/outbox/courier.go, Drain: the loop that sends what is queued.
use mailbox_cli.Prelude.{
  ℕ, ◌+◌, ◌≡◌, ◌≢◌, refl, sym, ap, ◌∙◌, subst, inl, inr, ◌⊎◌, true, false, none, List, [], ◌∷◌,
  arith, ◌==◌, select, length, All, Text,
}
use mailbox_cli.Outbox.Types.{State, queued, sent, filed, state_eq, Item, Row, World}
use mailbox_cli.Outbox.Store.{Result, ok, err}
use mailbox_cli.Outbox.Courier.{Courier, Drained, deliver, send_next, send_all}
use mailbox_cli.Outbox.OneRow.{HasRow, IsSound, From}
use mailbox_cli.Outbox.Delivery.{TakesAll, IsDelivered, deliver-IsDelivered}

-- The row with the id is sent or filed.
pub record IsOut (id : ℕ) (rows : List Row) : Type 0 where
  pub state : State
  pub out : (state ≡ sent) ⊎ (state ≡ filed)
  pub kept : HasRow id state rows

-- No two of the items have one id.
abbrev pub AreApart : List Item → Type 0
AreApart [] = Unit
AreApart (it ∷ items) = All (λ (x : Item). x.id ≢ it.id) items × AreApart items

pub carries_over :
    (id : ℕ) (s : State) (rows rows' : List Row)
    → select (λ r. r.id == id) rows' ≡ select (λ r. r.id == id) rows
    → HasRow id s rows
    → HasRow id s rows'
carries_over id s rows rows' e has = record {
  row = has.row;
  more = has.more;
  picked = e ∙ has.picked;
  in_state = has.in_state;
}

-- What sending some items leaves: all are counted, and each is sent or filed; the environment, and the
-- rows with other ids, are as they were.
pub record AreSent (n : ℕ) (items : List Item) (start : World) (r : Drained × World) : Type 0 where
  pub answer : r.0 ≡ (n + length items, none)
  pub out : All (λ it. IsOut it.id r.1.rows) items
  pub others :
      (j : ℕ)
      → All (λ (it : Item). it.id ≢ j) items
      → select (λ r. r.id == j) r.1.rows ≡ select (λ r. r.id == j) start.rows

-- The items that are left when another id's row has changed.
pub still_queued :
    (id : ℕ) (start w : World) (items : List Item)
    → From id start w
    → All (λ (it : Item). it.id ≢ id) items
    → All (λ it. HasRow it.id queued start.rows) items
    → All (λ it. HasRow it.id queued w.rows) items
still_queued id start w [] from ne has = tt
still_queued id start w (it ∷ items) from (ne, more) (h, has) = (
  carries_over it.id queued start.rows w.rows (from.others it.id ne) h,
  still_queued id start w items from more has,
)

out_of_queue : (s : State) → ((s ≡ sent) ⊎ (s ≡ filed)) → state_eq s queued ≡ false
out_of_queue s (inl e) = rw e refl
out_of_queue s (inr e) = rw e refl

sent_next :
    (n id : ℕ) (w : World) (r : Result Item × World) (rest : World → Drained × World)
    → IsDelivered id w r
    → send_next n r rest ≡ rest r.1
unfolding send_next
sent_next n id w (ok it, w') rest d = ground (arith, d.answer, out_of_queue d.item.state d.state)
sent_next n id w (err e, w') rest d = ground (arith, d.answer)

module _ (c : Courier) (transport : c.has_transport ≡ true) where
  -- If no statement fails, the courier has a transport, the submission server takes every mail, and the
  -- mails are queued and have different ids, then the loop sends all of them.
  pub send_all-AreSent :
      (n : ℕ) (items : List Item) (w : World)
      → IsSound w
      → TakesAll w
      → All (λ it. HasRow it.id queued w.rows) items
      → AreApart items
      → AreSent n items w (send_all c n items w)
  unfolding send_all
  send_all-AreSent n [] w sound takes has apart = record {
    answer = ap (λ k. (k, none)) (omega arith);
    out = tt;
    others = λ j ne. refl;
  }
  send_all-AreSent n (it ∷ items) w sound takes (h, has) (ne, apart) =
      let d = deliver-IsDelivered c it.id w sound transport takes h in
      let w' = (deliver c it.id w).1 in
      let sound' : IsSound w' = subst (λ e. (k : ℕ) → e.fails k ≡ false) (sym d.from.env) sound in
      let takes' : TakesAll w' =
        subst (λ e. (k : ℕ) (a : Text) (b : List Text) (t : Text) → e.submit k a b t ≡ none)
          (sym d.from.env) takes in
      let rest =
        send_all-AreSent (n + 1) items w' sound' takes'
          (still_queued it.id w w' items d.from ne has) apart in
      rw (sent_next n it.id w (deliver c it.id w) (send_all c (n + 1) items) d) (record {
        answer = rest.answer ∙ ap (λ k. (k, none)) (omega arith);
        out = (
          record {
            state = d.item.state;
            out = d.state;
            kept =
                carries_over it.id d.item.state w'.rows (send_all c (n + 1) items w').1.rows
                  (rest.others it.id ne) d.kept;
          },
          rest.out,
        );
        others = λ j nj. rest.others j nj.1 ∙ d.from.others j (λ e. nj.0 (sym e));
      })
