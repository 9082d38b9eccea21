-- ===== src/Hub/Settlements.antt =====
-- Settlements (hub/src/settlements): the repository and the service.
pub mod Insertion
pub mod Requests
pub mod Resolution
use distributed_payment_ledg.Prelude.{
  ℕ, String, Bool, true, false, not, ◌&&◌, Option, none, some, List, [], ◌∷◌, ◌++◌, ◌==◌, text_Eq,
  ltb, if◌then◌else◌, find, select, update,
}
use distributed_payment_ledg.Prelude.Texts.{◌<>◌}
use distributed_payment_ledg.Prelude.Int.{ℤ}
use distributed_payment_ledg.Exec.{
  Result, ok, err, map_err, Ending, commit, transaction, pure, throw, throw_if, gets, modify, ◌>>=◌,
  ◌>>◌,
}
use distributed_payment_ledg.Money.{Money, Number, integer, from_cents}
use distributed_payment_ledg.Outbox
use distributed_payment_ledg.Hub.Domain.{
  Bank, Settlement, database, no_settlement, invalid_amount, settlement_not_found, create, entries,
  reversal_entries,
}
use distributed_payment_ledg.Hub.Database.{
  Status, SettlementRecord, Outcome, Event, notify, outcome, Database, has_bank, has_id, to_bigint,
  settlement_checks, Action, raise,
}
use distributed_payment_ledg.Hub.Banks
use distributed_payment_ledg.Hub.Ledger.{append}

-- `settlementNotifyRoutingKey` and `settlementOutcomeRoutingKey`
abbrev pub settlement_notify_routing_key : String → String
settlement_notify_routing_key bank_id = "settlement.notify." <> bank_id

abbrev pub settlement_outcome_routing_key : String → String
settlement_outcome_routing_key bank_id = "settlement.outcome." <> bank_id

pub record SettlementRequestedEvent : Type 0 where
  pub settlement_id : String
  pub payer_bank_id : String
  pub payee_bank_id : String
  pub payee_account_ref : String
  pub amount_cents : Number

-- What a payee's bank may answer.
pub data ReplyOutcome : Type 0 where
  confirmed reversed : ReplyOutcome

pub record SettlementReplyEvent : Type 0 where
  pub settlement_id : String
  pub outcome : ReplyOutcome
  pub reason : Option String

abbrev pub unknown_payee_bank : String
unknown_payee_bank = "UNKNOWN_PAYEE_BANK"

-- The row that `insert` writes for a request.
abbrev pub row_of : SettlementRequestedEvent → ℤ → Status → Option String → ℕ → SettlementRecord
row_of event amount status reason now = record {
  id = event.settlement_id;
  payer_bank_id = event.payer_bank_id;
  payee_bank_id = event.payee_bank_id;
  payee_account_ref = event.payee_account_ref;
  amount_cents = amount;
  status = status;
  reject_reason = reason;
  created_at = now;
  updated_at = now;
}

abbrev pub add_row : SettlementRecord → Database → Database
add_row row db = record db { settlements = db.settlements ++ row ∷ [] }

-- `INSERT … ON CONFLICT (id) DO NOTHING`: the checks, the primary key, then the foreign key.
unfoldable pub insert : SettlementRecord → Action (Option SettlementRecord)
insert row = do
  throw_if (not (settlement_checks row)) database
  taken ← gets (λ db. find (has_id row.id) db.settlements)
  payer ← gets (has_bank row.payer_bank_id)
  elim taken [
    | some _ ↦ pure none
    | none ↦ throw_if (not payer) database >> modify (add_row row) >> pure (some row)
  ]

unfoldable pub find_by_id : String → Action (Option SettlementRecord)
find_by_id id = gets (λ db. find (has_id id) db.settlements)

abbrev pub is_pending : SettlementRecord → Bool
is_pending row = elim row.status [
  | Status.pending ↦ true
  | Status.confirmed ↦ false
  | Status.reversed ↦ false
  | Status.rejected ↦ false
]

abbrev pub is_open : String → SettlementRecord → Bool
is_open id row = has_id id row && is_pending row

abbrev pub confirm_row : ℕ → SettlementRecord → SettlementRecord
confirm_row now row = record row { status = Status.confirmed; updated_at = now }

abbrev pub reverse_row : ℕ → String → SettlementRecord → SettlementRecord
reverse_row now reason row = record row {
  status = Status.reversed;
  reject_reason = some reason;
  updated_at = now;
}

-- `UPDATE … WHERE id = $1 AND status = 'PENDING'`
unfoldable pub mark_confirmed : String → ℕ → Action (Unit {0})
mark_confirmed id now =
    modify (λ db. record db { settlements = update (is_open id) (confirm_row now) db.settlements })

unfoldable pub mark_reversed : String → String → ℕ → Action (Unit {0})
mark_reversed id reason now =
    modify (λ db. record db {
      settlements = update (is_open id) (reverse_row now reason) db.settlements;
    })

abbrev pub emit : String → String → String → Event → Action (Unit {0})
emit aggregate_id event_type routing_key event =
    modify (λ db. record db {
      outbox = Outbox.insert aggregate_id event_type routing_key event db.outbox;
    })

abbrev pub settlement_not_found_or {ℓ} : {A : Type ℓ} → String → Option A → Action A
settlement_not_found_or id none = raise (err (settlement_not_found id))
settlement_not_found_or id (some a) = pure a

unfoldable pub get_settlement : String → Action SettlementRecord
get_settlement id = do row ← find_by_id id; settlement_not_found_or id row

-- A number that a BIGINT column refuses is an error of the database.
abbrev pub bigint : Number → Action ℤ
bigint n = elim (to_bigint n) [ some z ↦ pure z | none ↦ throw database ]

abbrev pub announce_rejection :
    SettlementRequestedEvent → Option SettlementRecord → Action (Unit {0})
announce_rejection event none = pure tt
announce_rejection event (some row) =
    emit row.id "settlement.outcome" (settlement_outcome_routing_key event.payer_bank_id)
      (outcome row.id Outcome.rejected (some unknown_payee_bank))

-- The transaction for a payee's bank that is not registered.
unfoldable pub reject_request : SettlementRequestedEvent → ℕ → Action (Ending (Unit {0}))
reject_request event now = do
  amount ← bigint event.amount_cents
  inserted ← insert (row_of event amount Status.rejected (some unknown_payee_bank) now)
  announce_rejection event inserted
  pure (commit tt)

abbrev pub move_reserves : Settlement → ℕ → Option SettlementRecord → Action (Unit {0})
move_reserves s now none = pure tt
move_reserves s now (some row) = do
  es ← raise (entries s)
  append now es
  emit s.id "settlement.notify" (settlement_notify_routing_key s.payee_bank_id)
      (notify s.id s.payer_bank_id s.payee_account_ref s.amount.cents now)

-- The transaction for a payee's bank that is registered.
unfoldable pub accept_request : SettlementRequestedEvent → ℕ → Action (Ending (Unit {0}))
accept_request event now = do
  amount ← raise (map_err invalid_amount (from_cents event.amount_cents))
  s ← raise (
      create event.settlement_id event.payer_bank_id event.payee_bank_id event.payee_account_ref
        amount)
  inserted ← insert (row_of event amount.cents Status.pending none now)
  move_reserves s now inserted
  pure (commit tt)

-- `handleRequested`; `meanwhile` is what other requests commit after the bank was looked up.
unfoldable pub handle_requested :
    SettlementRequestedEvent → ℕ → (Database → Database) → Action (Unit {0})
handle_requested event now meanwhile = do
  payee_bank ← Banks.find_by_id event.payee_bank_id
  modify meanwhile
  elim payee_bank [
    | none ↦ transaction (reject_request event now)
    | some _ ↦ transaction (accept_request event now)
  ]

abbrev pub reason_or_default : Option String → String
reason_or_default (some reason) = reason
reason_or_default none = "REJECTED_BY_PAYEE_BANK"

-- Both entries of the settlement are booked the other way round.
unfoldable pub reverse : SettlementRecord → String → ℕ → Action (Unit {0})
reverse row reason now = do
  amount ← raise (map_err invalid_amount (from_cents (integer row.amount_cents)))
  s ← raise (create row.id row.payer_bank_id row.payee_bank_id row.payee_account_ref amount)
  es ← raise (reversal_entries s)
  append now es
  mark_reversed row.id reason now

abbrev pub relayed : ReplyOutcome → Outcome
relayed ReplyOutcome.confirmed = Outcome.confirmed
relayed ReplyOutcome.reversed = Outcome.reversed

-- The transaction of `handleReply`, for the settlement that was read before it began.
unfoldable pub apply_reply :
    SettlementRecord → SettlementReplyEvent → ℕ → Action (Ending (Unit {0}))
apply_reply row event now = do
  elim event.outcome [
    | ReplyOutcome.confirmed ↦ mark_confirmed row.id now
    | ReplyOutcome.reversed ↦ reverse row (reason_or_default event.reason) now
  ]
  emit row.id "settlement.outcome" (settlement_outcome_routing_key row.payer_bank_id)
      (outcome row.id (relayed event.outcome) event.reason)
  pure (commit tt)

abbrev pub reply_to :
    SettlementReplyEvent → ℕ → (Database → Database) → Option SettlementRecord → Action (Unit {0})
reply_to event now meanwhile none = throw (no_settlement event.settlement_id)
reply_to event now meanwhile (some row) =
    if is_pending row then modify meanwhile >> transaction (apply_reply row event now) else pure tt

-- `handleReply`; `meanwhile` is what other requests commit after the settlement was read.
unfoldable pub handle_reply : SettlementReplyEvent → ℕ → (Database → Database) → Action (Unit {0})
handle_reply event now meanwhile = do
  row ← find_by_id event.settlement_id
  reply_to event now meanwhile row
