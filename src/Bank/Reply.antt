-- ===== src/Bank/Reply.antt =====
-- The outcome of a settlement at the payer's bank (src/interbank-transfers/interbank-reply.service.ts,
-- interbank-reply.consumer.ts): confirm the transfer, or give the money back once.
pub mod Handling
use distributed_payment_ledg.Prelude.{ℕ, String, Option, none, some, List, ◌==◌, text_Eq, find}
use distributed_payment_ledg.Prelude.Texts.{◌<>◌}
use distributed_payment_ledg.Exec.{
  Result, ok, err, Ending, commit, transaction, pure, throw, gets, modify, ◌>>=◌, ◌>>◌,
}
use distributed_payment_ledg.Bank.Domain.{
  Transfer, no_interbank_transfer, no_local_transfer, suspense_account_id, create, entries,
}
use distributed_payment_ledg.Bank.Database.{
  Database, Status, InterbankTransferRecord, is_for, Action, raise,
}
use distributed_payment_ledg.Bank.Ledger.{append}
use distributed_payment_ledg.Bank.Transfers.{TransferRecord, Draw, find_by_id, insert}
use distributed_payment_ledg.Bank.Interbank.{mark_confirmed, mark_compensated}
use distributed_payment_ledg.Bank.Interbank

pub data Outcome : Type 0 where
  confirmed reversed rejected : Outcome

-- The Hub's outcome; the reason is only logged.
pub record SettlementOutcomeEvent : Type 0 where
  pub settlement_id : String
  pub outcome : Outcome
  pub reason : Option String

-- The idempotency key under which a compensation is recorded.
abbrev pub compensation_key : String → String
compensation_key id = "compensation-" <> id

abbrev pub refund : Transfer → ℕ → Option TransferRecord → Action (Unit {0})
refund reversal now none = pure tt
refund reversal now (some _) = raise (entries reversal) >>= append now

-- The body of the transaction of `compensate`.
unfoldable pub compensation : Transfer → String → ℕ → Action (Ending (Unit {0}))
compensation reversal id now = do
  inserted ← insert reversal (compensation_key id) now
  refund reversal now inserted
  mark_compensated id now
  pure (commit tt)

abbrev pub compensate_original : String → Draw → Option TransferRecord → Action (Unit {0})
compensate_original id draw none = throw (no_local_transfer id)
compensate_original id draw (some original) = do
  reversal ← raise (create draw.uuid suspense_account_id original.payer_account_id original.amount)
  transaction (compensation reversal id draw.now)

unfoldable pub compensate : String → Draw → Action (Unit {0})
compensate id draw = do original ← find_by_id id; compensate_original id draw original

-- What a DEBITED transfer's outcome does.
unfoldable pub apply_outcome : SettlementOutcomeEvent → Draw → Action (Unit {0})
apply_outcome event draw = elim event.outcome [
  | Outcome.confirmed ↦ mark_confirmed event.settlement_id draw.now
  | Outcome.reversed ↦ compensate event.settlement_id draw
  | Outcome.rejected ↦ compensate event.settlement_id draw
]

abbrev pub handle_row :
    SettlementOutcomeEvent
    → Draw
    → (Database → Database)
    → Option InterbankTransferRecord
    → Action (Unit {0})
handle_row event draw meanwhile none = throw (no_interbank_transfer event.settlement_id)
handle_row event draw meanwhile (some row) = elim row.status [
  | Status.debited ↦ modify meanwhile >> apply_outcome event draw
  | Status.confirmed ↦ pure tt
  | Status.compensated ↦ pure tt
]

-- `handle`; `meanwhile` is what other requests commit after the status was read.
unfoldable pub handle : SettlementOutcomeEvent → Draw → (Database → Database) → Action (Unit {0})
handle event draw meanwhile = do
  row ← Interbank.find_by_id event.settlement_id
  handle_row event draw meanwhile row

-- How the consumer answers the broker.
pub data Reply : Type 0 where
  ack nack_to_dlq : Reply

-- `onMessage`: a payload that does not parse, or a handler that throws, sends the message to the
-- dead-letter queue, and it is never delivered again.
unfoldable pub on_message :
    Option SettlementOutcomeEvent → Draw → (Database → Database) → Database → Reply × Database
on_message none draw meanwhile db = (nack_to_dlq, db)
on_message (some event) draw meanwhile db =
    let (r, db') = handle event draw meanwhile db in
    elim r [ ok _ ↦ (ack, db') | err _ ↦ (nack_to_dlq, db') ]
