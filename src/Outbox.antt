-- ===== src/Outbox.antt =====
-- The transactional outbox (src/outbox; hub/src/outbox is the same code over the Hub's events): the
-- table, its repository and the relay that publishes it. The payload is a parameter. The broker's
-- channel is a log of what was handed to it: it stands outside the database, so a rollback does not
-- take a publication back.
pub mod Queue
pub mod Claims
pub mod Relay
mod Tests
use distributed_payment_ledg.Prelude.{
  ℕ, String, ◌+◌, Bool, true, false, Option, none, some, List, [], ◌∷◌, ◌++◌, map, ◌==◌, nat_Eq,
  take, select, update,
}

-- A row of `outbox_events`.
pub record OutboxRow {ℓ} (P : Type ℓ) : Type ℓ where
  pub id : ℕ
  pub aggregate_id : String
  pub event_type : String
  pub routing_key : String
  pub payload : P
  pub published_at : Option ℕ

-- The table, with the next value of its identity column. Rows stand in the order of their ids.
pub record Table {ℓ} (P : Type ℓ) : Type ℓ where
  pub rows : List (OutboxRow P)
  pub next_id : ℕ

-- What the relay reads of a row.
pub record OutboxEvent {ℓ} (P : Type ℓ) : Type ℓ where
  pub id : ℕ
  pub routing_key : String
  pub payload : P

module _ {ℓ} {P : Type ℓ} where
  -- `OutboxRepository.insert`
  unfoldable pub insert : String → String → String → P → Table P → Table P
  insert aggregate_id event_type routing_key payload t = record {
    rows =
        t.rows
        ++ record {
          id = t.next_id;
          aggregate_id = aggregate_id;
          event_type = event_type;
          routing_key = routing_key;
          payload = payload;
          published_at = none;
        }
          ∷ [];
    next_id = t.next_id + 1;
  }

  abbrev pub is_unpublished : OutboxRow P → Bool
  is_unpublished row = elim row.published_at [ none ↦ true | some _ ↦ false ]

  abbrev pub to_event : OutboxRow P → OutboxEvent P
  to_event row = record { id = row.id; routing_key = row.routing_key; payload = row.payload }

  -- `claimUnpublished`: the first `limit` unpublished rows by id. No other relay holds a lock.
  unfoldable pub claim_unpublished : ℕ → Table P → List (OutboxEvent P)
  claim_unpublished limit t = map to_event (take limit (select is_unpublished t.rows))

  -- `markPublished`
  unfoldable pub mark_published : ℕ → ℕ → Table P → Table P
  mark_published now id t = record t {
    rows = update (λ row. row.id == id) (λ row. record row { published_at = some now }) t.rows;
  }
