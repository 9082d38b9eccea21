-- ===== src/Outbox/Relay/Delivery.antt =====
-- What the relay delivers: every event at least once, in the order of the ids.
use distributed_payment_ledg.Prelude.{
  ℕ, zero, suc, ◌+◌, ◌*◌, ◌≤◌, ◌≡◌, refl, sym, ◌∙◌, ap, inl, inr, Bool, true, List, [], ◌∷◌, ◌++◌,
  map, arith, length, take, drop, take-append-drop, length-drop, Bool-cases,
}
use mathlib.Core.List.{append-nil, append_assoc, map-append}
use distributed_payment_ledg.Exec.{Result, ok, err}
use distributed_payment_ledg.Outbox.{
  OutboxRow, OutboxEvent, to_event, claim_unpublished, mark_published,
}
use distributed_payment_ledg.Outbox.Queue.{
  pending, IsOrdered, mark_published-IsOrdered, pending-mark_published,
}
use distributed_payment_ledg.Outbox.Relay.{
  Message, Relay, RelayError, batch_size, message, publish_all, end_transaction, tick,
  handle_interval,
}

module _ {ℓ} {P : Type ℓ} where
  abbrev pub row_message : OutboxRow P → Message P
  row_message row = message (to_event row)

  -- A channel that takes every message.
  abbrev pub accepts_all : OutboxEvent P → Bool
  accepts_all event = true

  -- What the loop over claimed rows leaves, when the channel takes every message.
  pub record Published (rows rest : List (OutboxRow P)) (n : ℕ) (s : Relay P)
      (out : Result RelayError ℕ × Relay P) : Type ℓ where
    pub counts : out.0 ≡ ok (n + length rows)
    pub sends : out.1.sent ≡ s.sent ++ map row_message rows
    pub leaves : pending out.1.table ≡ rest
    pub ordered : IsOrdered out.1.table

  publish_all-Published :
      (now : ℕ) (rows rest : List (OutboxRow P)) (n : ℕ) (s : Relay P)
      → IsOrdered s.table
      → pending s.table ≡ rows ++ rest
      → Published rows rest n s (publish_all accepts_all now (map to_event rows) n s)
  unfolding publish_all
  publish_all-Published now [] rest n s a h = record {
    counts = ap ok (omega arith);
    sends = sym (append-nil s.sent);
    leaves = h;
    ordered = a;
  }
  publish_all-Published now (row ∷ rows) rest n s a h =
      let ih =
        publish_all-Published now rows rest (n + 1)
          (record {
            table = mark_published now row.id s.table;
            sent = s.sent ++ row_message row ∷ [];
          })
          (mark_published-IsOrdered now row.id s.table a)
          (pending-mark_published now s.table row (rows ++ rest) a h) in
      record {
        counts = ih.counts ∙ ap ok (omega arith);
        sends = ih.sends ∙ append_assoc s.sent (row_message row ∷ []) (map row_message rows);
        leaves = ih.leaves;
        ordered = ih.ordered;
      }

  ending-Published :
      (rows rest : List (OutboxRow P)) (n : ℕ) (s : Relay P) (out : Result RelayError ℕ × Relay P)
      → Published rows rest n s out
      → Published rows rest n s (end_transaction s out)
  ending-Published rows rest n s (ok m, after) p = p
  ending-Published rows rest n s (err e, after) p = absurd (cc p.counts)

  -- If the ids of the outbox rise and the channel takes every message, a tick sends the first
  -- hundred pending events, in the order of their ids, takes exactly those off the queue and
  -- returns their number.
  pub tick-Published :
      (now : ℕ) (s : Relay P)
      → IsOrdered s.table
      → Published
          (take batch_size (pending s.table))
          (drop batch_size (pending s.table))
          0
          s
          (tick accepts_all now s)
  unfolding tick claim_unpublished
  tick-Published now s a =
      ending-Published (take batch_size (pending s.table)) (drop batch_size (pending s.table)) 0 s
        (publish_all accepts_all now (map to_event (take batch_size (pending s.table))) 0 s)
        (publish_all-Published now (take batch_size (pending s.table))
          (drop batch_size (pending s.table)) 0 s a
          (sym (take-append-drop batch_size (pending s.table))))

  -- Ticks one after the other, with the time of each.
  abbrev pub ticks : ℕ → (ℕ → ℕ) → Relay P → Relay P
  ticks zero clock s = s
  ticks (suc k) clock s = ticks k clock (handle_interval accepts_all (clock k) s)

  length-zero : (rows : List (OutboxRow P)) → length rows ≤ 0 → rows ≡ []
  length-zero [] h = refl
  length-zero (row ∷ rows) h = absurd (omega arith)

  -- What a tick sent, and what is still to send, is what was to send.
  sends_on :
      (s after : Relay P)
      → after.sent ≡ s.sent ++ map row_message (take batch_size (pending s.table))
      → after.sent ++ map row_message (drop batch_size (pending s.table))
        ≡ s.sent ++ map row_message (pending s.table)
  sends_on s after h =
      ap (λ sent. sent ++ map row_message (drop batch_size (pending s.table))) h
      ∙ append_assoc s.sent _ _
      ∙ ap (λ ms. s.sent ++ ms)
          (sym (map-append row_message _ _)
            ∙ ap (map row_message) (take-append-drop batch_size (pending s.table)))

  -- If the ids of the outbox rise and the channel takes every message, as many ticks as the
  -- pending events need at a hundred a tick publish each of them once, in the order of the ids,
  -- and leave the queue empty.
  pub ticks_drain :
      (k : ℕ) (clock : ℕ → ℕ) (s : Relay P)
      → IsOrdered s.table
      → length (pending s.table) ≤ batch_size * k
      → (pending (ticks k clock s).table ≡ [])
        × ((ticks k clock s).sent ≡ s.sent ++ map row_message (pending s.table))
  unfolding handle_interval
  ticks_drain zero clock s a h =
      let none_left : pending s.table ≡ [] = length-zero (pending s.table) (omega arith) in
      (
        none_left,
        sym (append-nil s.sent) ∙ ap (λ rows. s.sent ++ map row_message rows) (sym none_left),
      )
  ticks_drain (suc k) clock s a h =
      let p = tick-Published (clock k) s a in
      let after : Relay P = (tick accepts_all (clock k) s).1 in
      let (empty, sent) =
        ticks_drain k clock after p.ordered
          (omega (arith, ap length p.leaves, length-drop batch_size (pending s.table))) in
      (
        empty,
        sent ∙ ap (λ rows. after.sent ++ map row_message rows) p.leaves ∙ sends_on s after p.sends,
      )

  -- The loop that throws has sent a part of its events, from the first one on.
  publish_all-prefix :
      (accepts : OutboxEvent P → Bool) (now : ℕ) (rows rest : List (OutboxRow P)) (n : ℕ)
      (s : Relay P) {e : RelayError} {after : Relay P}
      → publish_all accepts now (map to_event rows) n s ≡ (err e, after)
      → (k : ℕ) × (after.sent ≡ s.sent ++ map row_message (take k (rows ++ rest)))
  unfolding publish_all
  publish_all-prefix accepts now [] rest n s h = absurd (cc)
  publish_all-prefix accepts now (row ∷ rows) rest n s {e} {after} h =
      elim (Bool-cases (accepts (to_event row))) [
        | inr refused ↦ (0, sym (ap (λ o. o.1.sent) (rw refused at h)) ∙ sym (append-nil s.sent))
        | inl taken ↦
            let (k, sent) =
              publish_all-prefix accepts now rows rest (n + 1)
                (record {
                  table = mark_published now row.id s.table;
                  sent = s.sent ++ row_message row ∷ [];
                })
                {e = e} {after = after} (rw taken at h) in
            (suc k, sent ∙ append_assoc s.sent (row_message row ∷ []) _)
      ]

  -- When a publication throws, the tick leaves the outbox as it was; what the channel was handed
  -- before is a part of the pending events, from the first one on.
  pub tick-retries :
      (accepts : OutboxEvent P → Bool) (now : ℕ) (s : Relay P) {e : RelayError} {after : Relay P}
      → tick accepts now s ≡ (err e, after)
      → (after.table ≡ s.table)
        × ((k : ℕ) × (after.sent ≡ s.sent ++ map row_message (take k (pending s.table))))
  unfolding tick claim_unpublished
  tick-retries accepts now s {e} {after} h =
      go (publish_all accepts now (map to_event claimed) 0 s) refl h
    where
      claimed : List (OutboxRow P)
      claimed = take batch_size (pending s.table)

      go :
          (out : Result RelayError ℕ × Relay P)
          → publish_all accepts now (map to_event claimed) 0 s ≡ out
          → end_transaction s out ≡ (err e, after)
          → (after.table ≡ s.table)
            × ((k : ℕ) × (after.sent ≡ s.sent ++ map row_message (take k (pending s.table))))
      go (ok n, after') q k = absurd (cc)
      go (err e', after') q k =
          let (j, sent) =
            publish_all-prefix accepts now claimed (drop batch_size (pending s.table)) 0 s q in
          (
            sym (ap (λ o. o.1.table) k),
            (
              j,
              ap (λ o. o.1.sent) (sym k)
                  ∙ sent
                  ∙ ap (λ rows. s.sent ++ map row_message (take j rows))
                      (take-append-drop batch_size (pending s.table)),
            ),
          )
