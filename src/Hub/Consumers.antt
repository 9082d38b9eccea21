-- ===== src/Hub/Consumers.antt =====
-- `SettlementsConsumer` (hub/src/settlements/settlements.consumer.ts): what it answers the broker for
-- a settlement request and for a reply.
pub mod Answers
use distributed_payment_ledg.Prelude.{ℕ, Option, none, some}
use distributed_payment_ledg.Exec.{Result, ok, err}
use distributed_payment_ledg.Hub.Domain.{Error}
use distributed_payment_ledg.Hub.Database.{Database}
use distributed_payment_ledg.Hub.Settlements.{
  SettlementRequestedEvent, SettlementReplyEvent, handle_requested, handle_reply,
}

-- `ack(msg)`, or `nack(msg, false, false)`, which moves the message to the dead-letter queue.
pub data Answer : Type 0 where
  acked dead_lettered : Answer

abbrev pub answer : Result Error (Unit {0}) → Answer
answer (ok _) = acked
answer (err _) = dead_lettered

-- `onRequested`; `none` is a payload that does not parse.
unfoldable pub on_requested :
    Option SettlementRequestedEvent → ℕ → (Database → Database) → Database → Answer × Database
on_requested none now meanwhile db = (dead_lettered, db)
on_requested (some event) now meanwhile db =
    let (r, after) = handle_requested event now meanwhile db in (answer r, after)

-- `onReply`
unfoldable pub on_reply :
    Option SettlementReplyEvent → ℕ → (Database → Database) → Database → Answer × Database
on_reply none now meanwhile db = (dead_lettered, db)
on_reply (some event) now meanwhile db =
    let (r, after) = handle_reply event now meanwhile db in (answer r, after)
