-- ===== src/Outbox/Relay.antt =====
-- `OutboxRelayService`: one poll, publish and mark cycle in one transaction.
pub mod Delivery
pub mod Marking
use distributed_payment_ledg.Prelude.{
  ℕ, ◌+◌, String, Bool, true, false, List, [], ◌∷◌, ◌++◌, if◌then◌else◌,
}
use distributed_payment_ledg.Exec.{Result, ok, err}
use distributed_payment_ledg.Outbox.{Table, OutboxEvent, claim_unpublished, mark_published}

-- What the broker is handed (`RabbitMqPublisher.publish`).
pub record Message {ℓ} (P : Type ℓ) : Type ℓ where
  pub exchange : String
  pub routing_key : String
  pub payload : P

abbrev pub hub_settlements_exchange : String
hub_settlements_exchange = "hub-settlements"

abbrev pub batch_size : ℕ
batch_size = 100

-- The outbox, and the messages that the channel has been handed so far.
pub record Relay {ℓ} (P : Type ℓ) : Type ℓ where
  pub table : Table P
  pub sent : List (Message P)

-- What a cycle can throw: the channel refuses a publication.
pub data RelayError : Type 0 where
  channel_closed : RelayError

module _ {ℓ} {P : Type ℓ} where
  abbrev pub message : OutboxEvent P → Message P
  message event = record {
    exchange = hub_settlements_exchange;
    routing_key = event.routing_key;
    payload = event.payload;
  }

  -- The loop over the claimed events. `accepts` says which calls of `publish` return.
  unfoldable pub publish_all :
      (OutboxEvent P → Bool)
      → ℕ
      → List (OutboxEvent P)
      → ℕ
      → Relay P
      → Result RelayError ℕ × Relay P
  publish_all accepts now [] published s = (ok published, s)
  publish_all accepts now (event ∷ events) published s =
      let rest = publish_all accepts now events (published + 1) (record {
        table = mark_published now event.id s.table;
        sent = s.sent ++ message event ∷ [];
      }) in
      if accepts event then rest else (err channel_closed, s)

  -- COMMIT, or ROLLBACK of the table alone: what was sent stays sent.
  abbrev pub end_transaction :
      Relay P → Result RelayError ℕ × Relay P → Result RelayError ℕ × Relay P
  end_transaction before (ok n, after) = (ok n, after)
  end_transaction before (err e, after) = (err e, record after { table = before.table })

  unfoldable pub tick : (OutboxEvent P → Bool) → ℕ → Relay P → Result RelayError ℕ × Relay P
  tick accepts now s =
      end_transaction s (publish_all accepts now (claim_unpublished batch_size s.table) 0 s)

  -- `handleInterval`: the error was logged, and the next tick retries.
  unfoldable pub handle_interval : (OutboxEvent P → Bool) → ℕ → Relay P → Relay P
  handle_interval accepts now s = (tick accepts now s).1
