-- ===== src/System.antt =====
-- Bank A and the Hub together. What one of them has written to its outbox may reach the other any
-- number of times and in any order: the relay publishes rows that are committed, the broker delivers
-- at least once. A request that will not reach the Hub any more is lost.
pub mod Agreement
pub mod Backing
pub mod EarlyRefund
pub mod Telling
pub mod Refinement
mod Tests
use distributed_payment_ledg.Prelude.{
  ℕ, String, ◌≡◌, ◌≢◌, ◌⊎◌, Bool, true, false, Option, none, some, List, [], ◌∷◌, ◌==◌, text_Eq,
  find, exists, Any,
}
use distributed_payment_ledg.Money.{integer}
use distributed_payment_ledg.Outbox.{OutboxRow}
use distributed_payment_ledg.Bank.Database.{Database as BankDatabase, SettlementRequest}
use distributed_payment_ledg.Bank.Reply.{Outcome, SettlementOutcomeEvent}
use distributed_payment_ledg.Bank.Reconciliation.{HubStatus, HubSettlementView, Response, answered}
use distributed_payment_ledg.Bank.Step as BankStep
use distributed_payment_ledg.Hub.Database as HubData
use distributed_payment_ledg.Hub.Database.{
  Database as HubDatabase, SettlementRecord, Event, outcome, has_id,
}
use distributed_payment_ledg.Hub.Http.{Answer, success, failure, respond, settlement_by_id}
use distributed_payment_ledg.Hub.Settlements.{
  SettlementRequestedEvent, ReplyOutcome, is_pending, settlement_outcome_routing_key,
}
use distributed_payment_ledg.Hub.Step as HubStep

-- The payload of `settlement.requested`, as the Hub parses it.
abbrev pub received : SettlementRequest → SettlementRequestedEvent
received request = record {
  settlement_id = request.settlement_id;
  payer_bank_id = request.payer_bank_id;
  payee_bank_id = request.payee_bank_id;
  payee_account_ref = request.payee_account_ref;
  amount_cents = integer request.amount_cents;
}

-- An outcome of the Hub, as the bank parses it.
abbrev pub outcome_received : HubData.Outcome → Outcome
outcome_received HubData.Outcome.confirmed = Outcome.confirmed
outcome_received HubData.Outcome.reversed = Outcome.reversed
outcome_received HubData.Outcome.rejected = Outcome.rejected

-- The payload of `settlement.outcome`, as the bank parses it.
abbrev pub event_received : String → HubData.Outcome → Option String → SettlementOutcomeEvent
event_received id o reason = record {
  settlement_id = id;
  outcome = outcome_received o;
  reason = reason;
}

-- `status` and `rejectReason` of a settlement, as the bank parses them.
abbrev pub status_received : HubData.Status → HubStatus
status_received HubData.Status.pending = HubStatus.pending
status_received HubData.Status.confirmed = HubStatus.confirmed
status_received HubData.Status.reversed = HubStatus.reversed
status_received HubData.Status.rejected = HubStatus.rejected

abbrev pub view : SettlementRecord → HubSettlementView
view row = record { status = status_received row.status; reject_reason = row.reject_reason }

-- What `fetch` of `/settlements/:id` gives, where the Hub is reached.
abbrev pub to_response : Answer SettlementRecord → Response
to_response (success row) = answered 200 (some (view row))
to_response (failure status) = answered status none

unfoldable pub hub_answer : HubDatabase → String → Response
hub_answer hub id = to_response (respond (settlement_by_id id) hub).0

pub record System : Type 0 where
  pub bank : BankDatabase
  pub hub : HubDatabase
  pub lost : List String

abbrev pub is_lost : String → System → Bool
is_lost id s = exists (λ other. other == id) s.lost

-- The outcome that a settlement's status says.
abbrev pub decided : HubData.Status → Option HubData.Outcome
decided HubData.Status.pending = none
decided HubData.Status.confirmed = some HubData.Outcome.confirmed
decided HubData.Status.reversed = some HubData.Outcome.reversed
decided HubData.Status.rejected = some HubData.Outcome.rejected

module _ (bank_id : String) where
  -- An event in the Hub's outbox that the broker routes to the bank.
  abbrev pub IsOutcomeOf : String → HubData.Outcome → OutboxRow Event → Type 0
  IsOutcomeOf id o row =
      (row.routing_key ≡ settlement_outcome_routing_key bank_id)
      × ((reason : Option String) × (row.payload ≡ outcome id o reason))

  -- How the bank learns of an outcome: by an event, by asking, or because the Hub has no record of a
  -- request that is lost.
  pub data Told (s : System) (id : String) (o : HubData.Outcome) : Type 0 where
    announced : Any (IsOutcomeOf id o) s.hub.outbox.rows → Told s id o
    viewed :
        (row : SettlementRecord)
        → find (has_id id) s.hub.settlements ≡ some row
        → decided row.status ≡ some o
        → Told s id o
    missing :
        find (has_id id) s.hub.settlements ≡ none
        → is_lost id s ≡ true
        → o ≡ HubData.Outcome.rejected
        → Told s id o

  abbrev pub ToldUndone : System → String → Type 0
  ToldUndone s id = Told s id HubData.Outcome.reversed ⊎ Told s id HubData.Outcome.rejected

  -- What a step of the bank needs: it settles a transfer only as it was told.
  abbrev pub Warranted : System → {a b : BankDatabase} → BankStep.Step a b → Type 0
  Warranted s (BankStep.confirmed id now db) = Told s id HubData.Outcome.confirmed
  Warranted s (BankStep.refunded original id row now db e p refund) = ToldUndone s id
  Warranted s (BankStep.closed id earlier now db e) = ToldUndone s id
  Warranted s _ = Unit

  -- A request that reaches the Hub: it stands in the bank's outbox, or is another bank's.
  pub data Asked (s : System) (event : SettlementRequestedEvent) : Type 0 where
    ours : Any (λ row. event ≡ received row.payload) s.bank.outbox.rows → Asked s event
    theirs : event.payer_bank_id ≢ bank_id → Asked s event

  abbrev pub Delivered : System → SettlementRequestedEvent → Type 0
  Delivered s event = Asked s event × (is_lost event.settlement_id s ≡ false)

  -- A reply acts on a settlement that is still PENDING: replies do not overlap.
  abbrev pub Alone : SettlementRecord → HubDatabase → Type 0
  Alone row hub = (find (has_id row.id) hub.settlements ≡ some row) × (is_pending row ≡ true)

  -- What a step of the Hub needs.
  abbrev pub Served : System → {a b : HubDatabase} → HubStep.Step a b → Type 0
  Served s (HubStep.rejected event now amount db p) = Delivered s event
  Served s (HubStep.accepted event now amount db e safe p) = Delivered s event
  Served s (HubStep.confirmed row event now db later) =
      Alone row db × (event.outcome ≡ ReplyOutcome.confirmed)
  Served s (HubStep.reversed row event now db later safe) =
      Alone row db × (event.outcome ≡ ReplyOutcome.reversed)
  Served s _ = Unit

  pub data Step : System → System → Type 0 where
    at_bank :
        {b : BankDatabase} (s : System) (p : BankStep.Step s.bank b)
        → Warranted s p
        → Step s (record s { bank = b })
    at_hub :
        {h : HubDatabase} (s : System) (p : HubStep.Step s.hub h)
        → Served s p
        → Step s (record s { hub = h })
    loses : (id : String) (s : System) → Step s (record s { lost = id ∷ s.lost })

  -- Any number of steps.
  pub data Reach (a : System) : System → Type 0 where
    here : Reach a a
    next : {b c : System} → Reach a b → Step b c → Reach a c

  pub Reach-trans : {a b c : System} → Reach a b → Reach b c → Reach a c
  Reach-trans r here = r
  Reach-trans r (next q s) = next (Reach-trans r q) s
