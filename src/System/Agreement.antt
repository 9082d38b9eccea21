-- ===== src/System/Agreement.antt =====
-- What the two services hold about one transfer, and when they agree.
pub mod AtHub
pub mod AtBank
pub mod Kept
use distributed_payment_ledg.Prelude.{
  ℕ, String, ◌≡◌, ◌≢◌, refl, sym, subst, ap, ◌∙◌, ◌⊎◌, inl, inr, ◌&&◌, true, false, none, some,
  List, [], ◌∷◌, ◌++◌, arith, ◌==◌, nat_Eq, text_Eq, eq_iff, Bool-cases, Option-cases, find, exists,
  update, find-append_some, find-append_none, find_holds, All, All-append, All-map_lem, All-Any,
  Any,
}
use distributed_payment_ledg.Outbox.{OutboxRow}
use distributed_payment_ledg.Outbox
use distributed_payment_ledg.Bank.Database.{
  Database as BankDatabase, Status, InterbankTransferRecord, is_for,
}
use distributed_payment_ledg.Bank.Interbank.{is_debited, move_debited}
use distributed_payment_ledg.Bank.Invariant.Saga.{moved, find-move_debited}
use distributed_payment_ledg.Bank.Step as BankStep
use distributed_payment_ledg.Hub.Database as HubData
use distributed_payment_ledg.Hub.Database.{
  Database as HubDatabase, SettlementRecord, Event, notify, outcome, has_id,
}
use distributed_payment_ledg.Hub.Settlements.{
  row_of, unknown_payee_bank, confirm_row, reverse_row, reason_or_default, is_open, is_pending,
  relayed, SettlementReplyEvent, ReplyOutcome,
}
use distributed_payment_ledg.Hub.Settlements.Requests.{accepted_row}
use distributed_payment_ledg.Hub.Invariant.History.{settlement-Develops, find-update_open}
use distributed_payment_ledg.Hub.Redelivery.Request.{find-new}
use distributed_payment_ledg.Hub.Step as HubStep
use distributed_payment_ledg.System.{
  System, is_lost, decided, Told, announced, viewed, missing, ToldUndone, Warranted, Served,
  Delivered, Step, at_bank, at_hub, loses, Reach, here, next,
}

-- The Hub's settlement says the outcome.
abbrev pub Says : HubDatabase → String → HubData.Outcome → Type 0
Says hub id o =
    (row : SettlementRecord) × (find (has_id id) hub.settlements ≡ some row)
    × (decided row.status ≡ some o)

-- The Hub has no record of a request that is lost.
abbrev pub NeverAsked : System → String → Type 0
NeverAsked s id = (find (has_id id) s.hub.settlements ≡ none) × (is_lost id s ≡ true)

-- What the Hub says of a transfer that has a status at the bank.
abbrev pub Verdict : System → String → Status → Type 0
Verdict s id Status.debited = Unit
Verdict s id Status.confirmed = Says s.hub id HubData.Outcome.confirmed
Verdict s id Status.compensated =
    (Says s.hub id HubData.Outcome.reversed ⊎ Says s.hub id HubData.Outcome.rejected)
    ⊎ NeverAsked s id

-- An outcome that the Hub has announced is what its settlement says.
abbrev pub Truthful : HubDatabase → Event → Type 0
Truthful hub (notify id payer ref amount at) = Unit
Truthful hub (outcome id o reason) = Says hub id o

pub record IsAgreed (s : System) : Type 0 where
  pub truthful : All (λ row. Truthful s.hub row.payload) s.hub.outbox.rows
  pub agreed :
      (id : String) (row : InterbankTransferRecord)
      → find (is_for id) s.bank.interbank_transfers ≡ some row
      → Verdict s id row.status
