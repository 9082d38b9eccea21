-- ===== src/Outbox/Relay/Marking.antt =====
-- What a tick of the relay does to the table, whatever the channel takes: it marks events, one by one,
-- and sends only what stands in the table.
use distributed_payment_ledg.Prelude.{
  ℕ, zero, suc, ◌+◌, ◌≡◌, refl, inl, inr, Bool, List, [], ◌∷◌, ◌++◌, map, take, select, Bool-cases,
  All, All-append, All-map_lem, Any, at_head, in_tail,
}
use distributed_payment_ledg.Exec.{Result, ok, err}
use distributed_payment_ledg.Outbox.{
  OutboxRow, OutboxEvent, Table, to_event, is_unpublished, claim_unpublished, mark_published,
}
use distributed_payment_ledg.Outbox.Relay.{
  Message, Relay, RelayError, batch_size, message, publish_all, end_transaction, tick,
}

module _ {ℓ} {P : Type ℓ} where
  -- A table with some events marked as published.
  pub data Marked (t : Table P) : Table P → Type ℓ where
    same : Marked t t
    then_one : {u : Table P} (now id : ℕ) → Marked t u → Marked t (mark_published now id u)

  Marked-trans : {t u v : Table P} → Marked t u → Marked u v → Marked t v
  Marked-trans p same = p
  Marked-trans p (then_one now id q) = then_one now id (Marked-trans p q)

  -- The message of some row of a table.
  abbrev pub FromTable : Table P → Message P → Type ℓ
  FromTable t m = Any (λ row. m ≡ message (to_event row)) t.rows

  publish_all-Marked :
      (accepts : OutboxEvent P → Bool) (now : ℕ) (events : List (OutboxEvent P)) (n : ℕ)
      (s : Relay P)
      → Marked s.table (publish_all accepts now events n s).1.table
  unfolding publish_all
  publish_all-Marked accepts now [] n s = same
  publish_all-Marked accepts now (event ∷ events) n s = elim (Bool-cases (accepts event)) [
    | inr refused ↦ rw refused same
    | inl taken ↦ rw taken (
        Marked-trans (then_one now event.id same) (
          publish_all-Marked accepts now events (n + 1) (record {
            table = mark_published now event.id s.table;
            sent = s.sent ++ message event ∷ [];
          })))
  ]

  publish_all-sends :
      (Q : Message P → Type ℓ) (accepts : OutboxEvent P → Bool) (now : ℕ)
      (events : List (OutboxEvent P)) (n : ℕ) (s : Relay P)
      → All (λ event. Q (message event)) events
      → All Q s.sent
      → All Q (publish_all accepts now events n s).1.sent
  unfolding publish_all
  publish_all-sends Q accepts now [] n s from h = h
  publish_all-sends Q accepts now (event ∷ events) n s from h = elim (Bool-cases (accepts event)) [
    | inr refused ↦ rw refused h
    | inl taken ↦ rw taken (
        publish_all-sends Q accepts now events (n + 1)
          (record {
            table = mark_published now event.id s.table;
            sent = s.sent ++ message event ∷ [];
          })
          from.1 (All-append Q s.sent (message event ∷ []) h (from.0, tt)))
  ]

  ending-Marked :
      (s : Relay P) (out : Result RelayError ℕ × Relay P)
      → Marked s.table out.1.table
      → Marked s.table (end_transaction s out).1.table
  ending-Marked s (ok n, after) p = p
  ending-Marked s (err e, after) p = same

  ending-sends :
      (Q : Message P → Type ℓ) (s : Relay P) (out : Result RelayError ℕ × Relay P)
      → All Q out.1.sent
      → All Q (end_transaction s out).1.sent
  ending-sends Q s (ok n, after) h = h
  ending-sends Q s (err e, after) h = h

  -- A message that some row of a list gives.
  abbrev GivenBy : List (OutboxRow P) → Message P → Type ℓ
  GivenBy rows m = Any (λ row. m ≡ message (to_event row)) rows

  selected-given :
      (rows : List (OutboxRow P))
      → All (λ row. GivenBy rows (message (to_event row))) (select is_unpublished rows)
  selected-given [] = tt
  selected-given (row ∷ rows) =
      let rest : All (λ other. GivenBy (row ∷ rows) (message (to_event other)))
          (select is_unpublished rows) =
        All-map_lem (λ other given. in_tail given) (select is_unpublished rows)
          (selected-given rows) in
      elim (Bool-cases (is_unpublished row)) [
        | inl waits ↦ rw waits (at_head refl, rest)
        | inr done ↦ rw done rest
      ]

  claimed-given :
      (k : ℕ) (ps rows : List (OutboxRow P))
      → All (λ row. GivenBy rows (message (to_event row))) ps
      → All (λ event. GivenBy rows (message event)) (map to_event (take k ps))
  claimed-given zero ps rows h = tt
  claimed-given (suc k) [] rows h = tt
  claimed-given (suc k) (p ∷ ps) rows h = (h.0, claimed-given k ps rows h.1)

  pub tick-Marked :
      (accepts : OutboxEvent P → Bool) (now : ℕ) (s : Relay P)
      → Marked s.table (tick accepts now s).1.table
  unfolding tick
  tick-Marked accepts now s =
      ending-Marked s (publish_all accepts now (claim_unpublished batch_size s.table) 0 s)
        (publish_all-Marked accepts now (claim_unpublished batch_size s.table) 0 s)

  -- Whatever the channel takes, what a tick sends stands in the table.
  pub tick-sends :
      (accepts : OutboxEvent P → Bool) (now : ℕ) (s : Relay P)
      → All (FromTable s.table) s.sent
      → All (FromTable s.table) (tick accepts now s).1.sent
  unfolding tick claim_unpublished
  tick-sends accepts now s h =
      let events : List (OutboxEvent P) =
        map to_event (take batch_size (select is_unpublished s.table.rows)) in
      ending-sends (FromTable s.table) s (publish_all accepts now events 0 s) (
        publish_all-sends (FromTable s.table) accepts now events 0 s
          (claimed-given batch_size (select is_unpublished s.table.rows) s.table.rows
            (selected-given s.table.rows))
          h)
