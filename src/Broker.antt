-- ===== src/Broker.antt =====
-- The broker's exchanges, queues and bindings, as the services declare them
-- (infra/messaging/rabbitmq.module.ts and topology.ts of both, hub/src/settlements/settlements.consumer.ts,
-- src/interbank-transfers/interbank-reply.consumer.ts). Which routing keys a binding key of a topic
-- exchange matches is the broker's, a parameter.
pub mod Routing
mod Tests
use Prim.Native.Char.{code}
use Prim.Native.String as Text
use distributed_payment_ledg.Prelude.{
  ℕ, String, Bool, true, false, not, ◌&&◌, ◌||◌, Option, none, some, List, [], ◌∷◌, ◌++◌, map, ◌==◌,
  text_Eq, nat_Eq, select, if◌then◌else◌, find, ◌≡◌,
}
use distributed_payment_ledg.Prelude.Texts.{◌<>◌}
use distributed_payment_ledg.Outbox.Relay.{Message, hub_settlements_exchange}
use distributed_payment_ledg.Bank.Interbank.{settlement_requested_routing_key}
use distributed_payment_ledg.Hub.Settlements.{settlement_outcome_routing_key}

pub data ExchangeKind : Type 0 where
  topic fanout : ExchangeKind

pub record Exchange : Type 0 where
  pub name : String
  pub kind : ExchangeKind

-- A queue, and the exchange to which its rejected messages go (`x-dead-letter-exchange`).
pub record Queue : Type 0 where
  pub name : String
  pub dead_letter_exchange : Option String

pub record Binding : Type 0 where
  pub queue : String
  pub exchange : String
  pub key : String

-- What a service declares when it starts.
pub record Topology : Type 0 where
  pub exchanges : List Exchange
  pub queues : List Queue
  pub bindings : List Binding

-- Declarations of several services add up: each asserts what it needs.
infixr 65 ◌and◌
abbrev pub ◌and◌ : Topology → Topology → Topology
a and b = record {
  exchanges = a.exchanges ++ b.exchanges;
  queues = a.queues ++ b.queues;
  bindings = a.bindings ++ b.bindings;
}

abbrev pub settlement_reply_routing_key : String
settlement_reply_routing_key = "settlement.reply"

-- `channel.assertExchange(HUB_SETTLEMENTS_EXCHANGE, 'topic', …)`, by both services.
abbrev pub shared : Topology
shared = record {
  exchanges = record { name = hub_settlements_exchange; kind = topic } ∷ [];
  queues = [];
  bindings = [];
}

abbrev pub requests_queue : String
requests_queue = "hub.settlement-requests"

abbrev pub replies_queue : String
replies_queue = "hub.settlement-replies"

abbrev pub hub_dlx : String
hub_dlx = "hub.settlements.dlx"

abbrev pub hub_dlq : String
hub_dlq = "hub.settlements.dlq"

-- `SettlementsConsumer.onApplicationBootstrap`
unfoldable pub hub_topology : Topology
hub_topology = record {
  exchanges = record { name = hub_dlx; kind = fanout } ∷ [];
  queues =
      record { name = hub_dlq; dead_letter_exchange = none }
      ∷ record { name = requests_queue; dead_letter_exchange = some hub_dlx }
      ∷ record { name = replies_queue; dead_letter_exchange = some hub_dlx }
      ∷ [];
  bindings =
      record { queue = hub_dlq; exchange = hub_dlx; key = "" }
      ∷ record {
        queue = requests_queue;
        exchange = hub_settlements_exchange;
        key = settlement_requested_routing_key;
      }
      ∷ record {
        queue = replies_queue;
        exchange = hub_settlements_exchange;
        key = settlement_reply_routing_key;
      }
      ∷ [];
}

abbrev pub outcomes_queue : String → String
outcomes_queue bank_id = bank_id <> ".settlement-outcomes"

abbrev pub bank_dlx : String
bank_dlx = "bank-a.settlement-outcomes.dlx"

abbrev pub bank_dlq : String
bank_dlq = "bank-a.settlement-outcomes.dlq"

-- `InterbankReplyConsumer.onApplicationBootstrap`
unfoldable pub bank_topology : String → Topology
bank_topology bank_id = record {
  exchanges = record { name = bank_dlx; kind = fanout } ∷ [];
  queues =
      record { name = bank_dlq; dead_letter_exchange = none }
      ∷ record { name = outcomes_queue bank_id; dead_letter_exchange = some bank_dlx }
      ∷ [];
  bindings =
      record { queue = bank_dlq; exchange = bank_dlx; key = "" }
      ∷ record {
        queue = outcomes_queue bank_id;
        exchange = hub_settlements_exchange;
        key = settlement_outcome_routing_key bank_id;
      }
      ∷ [];
}

-- A queue that another service binds to its outcomes, as each payer's bank does.
abbrev pub other_bank : String → String → Topology
other_bank bank_id queue = record {
  exchanges = [];
  queues = record { name = queue; dead_letter_exchange = none } ∷ [];
  bindings =
      record {
        queue = queue;
        exchange = hub_settlements_exchange;
        key = settlement_outcome_routing_key bank_id;
      }
      ∷ [];
}

module _ (matches : String → String → Bool) (topology : Topology) where
  -- Whether a binding takes a message that is published to its exchange.
  abbrev pub takes : ExchangeKind → String → Binding → Bool
  takes fanout key binding = true
  takes topic key binding = matches binding.key key

  abbrev pub routed_from : String → String → Option Exchange → List String
  routed_from exchange key none = []
  routed_from exchange key (some x) =
      map (λ b. b.queue)
        (select (λ b. b.exchange == exchange && takes x.kind key b) topology.bindings)

  -- The queues that get a message.
  unfoldable pub routed : String → String → List String
  routed exchange key = routed_from exchange key (find (λ x. x.name == exchange) topology.exchanges)

  abbrev pub dead_letters_of : Option Queue → List String
  dead_letters_of none = []
  dead_letters_of (some q) = elim q.dead_letter_exchange [ none ↦ [] | some x ↦ routed x "" ]

  -- The queues that get a message which a consumer of a queue rejects (`nack(msg, false, false)`).
  unfoldable pub dead_lettered : String → List String
  dead_lettered queue = dead_letters_of (find (λ q. q.name == queue) topology.queues)

-- Whether a text has no wildcard of a topic exchange, `*` or `#`.
unfoldable pub is_plain : String → Bool
is_plain Text.[] = true
is_plain (Text.◌∷◌ c s) = let rest = is_plain s in not (code c == 42 || code c == 35) && rest

-- The broker's documentation: a binding key without wildcards matches that routing key and no other.
abbrev pub MatchesPlain : (String → String → Bool) → Type 0
MatchesPlain matches =
    (binding key : String) → is_plain binding ≡ true → matches binding key ≡ (binding == key)
