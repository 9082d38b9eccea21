-- ===== src/System/Tests.antt =====
-- Runs of Bank A and the Hub together: a transfer to another bank is requested, decided and learned.
use distributed_payment_ledg.Prelude.{
  String, ◌≡◌, refl, none, [], ◌∷◌, arith, eq_iff, at_head, in_tail,
}
use distributed_payment_ledg.Prelude.Int.{pos, neg, ◌+ℤ◌}
use distributed_payment_ledg.Outbox
use distributed_payment_ledg.Bank.Database.{Status}
use distributed_payment_ledg.Bank.Posting.{row_of}
use distributed_payment_ledg.Bank.Database.{SettlementRequest}
use distributed_payment_ledg.Bank.Interbank.{execute, request, new_row, move_debited}
use distributed_payment_ledg.Bank.Reconciliation.{Sweep, reconcile_one}
use distributed_payment_ledg.Bank.Reply.{handle}
use distributed_payment_ledg.Bank.Tests.{bank, nobody, draw, retry}
use distributed_payment_ledg.Bank.Tests.Saga.{config, abroad, outgoing, sent}
use distributed_payment_ledg.Hub.Domain.{Bank}
use distributed_payment_ledg.Hub.Database as HubData
use distributed_payment_ledg.Hub.Database.{
  Database as HubDatabase, SettlementRecord, settlement_checks,
}
use distributed_payment_ledg.Hub.Settlements.{
  SettlementReplyEvent, ReplyOutcome, handle_requested, handle_reply,
}
use distributed_payment_ledg.Hub.Settlements.Requests.{accepted_row, accepted_state}
use distributed_payment_ledg.Hub.Settlements.Resolution.{confirmed_state}
use distributed_payment_ledg.Hub.Settlements.Insertion.{IsInsertable}
use distributed_payment_ledg.Hub.Invariant.History.{Develops-refl}
use distributed_payment_ledg.Hub.Step as HubStep
use distributed_payment_ledg.Bank.Step as BankStep
use distributed_payment_ledg.System.{
  System, received, event_received, hub_answer, Told, announced, Delivered, ours, Reach, here, next,
  at_bank, at_hub,
}
use distributed_payment_ledg.Hub.Settlements as HubSettlements
use distributed_payment_ledg.Hub.Settlements.{get_settlement}
use distributed_payment_ledg.Hub.Domain as HubDomain
use distributed_payment_ledg.Hub.Ledger as HubLedger
use distributed_payment_ledg.Hub.Banks
use distributed_payment_ledg.Hub.Http.{settlement_by_id, status_of}
use distributed_payment_ledg.Exec.{ok}
use distributed_payment_ledg.Prelude.{true}
use distributed_payment_ledg.Money.{from_cents, negated}
use distributed_payment_ledg.Bank.Domain.{create, entries}
use distributed_payment_ledg.Bank.Database.{transfer_checks, put_transfer, put_entry}
use distributed_payment_ledg.Bank.Ledger.{append}
use distributed_payment_ledg.Bank.Transfers.{insert, to_record}
use distributed_payment_ledg.Bank.Transfers
use distributed_payment_ledg.Bank.Interbank
use distributed_payment_ledg.Bank.Interbank.{mark_compensated}
use distributed_payment_ledg.Bank.Reply.{apply_outcome, compensate, compensation}
use distributed_payment_ledg.Bank.Reconciliation.{apply_response}
use distributed_payment_ledg.Bank.Tests.Saga.{refunded}
use distributed_payment_ledg.System.EarlyRefund.{IsRefunded, IsPending, early_refund}
use distributed_payment_ledg.System.Backing.{IsBacked, Reach-IsBacked}
use distributed_payment_ledg.System.Refinement.Outcomes.{Reaches, handle-Reaches}
use distributed_payment_ledg.System.Refinement.Requests.{
  HubReaches, handle_requested-Reaches, handle_reply-Reaches, execute-Reaches,
}

abbrev bank_of : String → Bank
bank_of id = record { id = id; name = "Bank"; base_url = "http://bank"; created_at = 0 }

abbrev hub : HubDatabase
hub = record {
  banks = bank_of "bank-a" ∷ bank_of "bank-b" ∷ [];
  ledger_entries = [];
  settlements = [];
  outbox = record { rows = []; next_id = 1 };
}

abbrev asked : SettlementRequest
asked = request outgoing abroad "bank-a"

-- The bank has asked for the settlement of its transfer, and the Hub has not heard of it.
abbrev start : System
start = record { bank = sent; hub = hub; lost = [] }

start-IsBacked : IsBacked "bank-a" start
unfolding Outbox.insert
start-IsBacked = record {
  requests = ((row_of outgoing "key" 5, refl, refl, refl), tt);
  settlements = tt;
}

start-Delivered : Delivered "bank-a" start (received asked)
unfolding Outbox.insert
start-Delivered = (ours (at_head refl), refl)

-- The request reaches the Hub, the payee's bank confirms, and the bank learns of it.
abbrev accepted : HubDatabase
accepted = accepted_state (received asked) 6 (pos 400) hub

abbrev settlement : SettlementRecord
settlement = accepted_row (received asked) 6 (pos 400)

abbrev reply : SettlementReplyEvent
reply = record { settlement_id = "t1"; outcome = ReplyOutcome.confirmed; reason = none }

abbrev decided : HubDatabase
decided = confirmed_state settlement reply 7 accepted

abbrev settled : System
settled = record { bank = move_debited Status.confirmed 8 "t1" sent; hub = decided; lost = [] }

settlement-IsInsertable : IsInsertable settlement hub
settlement-IsInsertable = record {
  positive = ground arith;
  distinct = λ e. cc ((eq_iff "bank-a" "bank-b").1 e);
  fresh = refl;
  has_payer = refl;
}

told : Told "bank-a" (record start { hub = decided }) "t1" HubData.Outcome.confirmed
unfolding Outbox.insert
told = announced (in_tail (at_head (refl, (none, refl))))

run : Reach "bank-a" start settled
run =
    next
      (next
        (next here (
          at_hub start
            (HubStep.accepted (received asked) 6 (pos 400) hub refl (ground arith)
              settlement-IsInsertable)
            start-Delivered))
        (at_hub (record start { hub = accepted })
          (HubStep.confirmed settlement reply 7 accepted
            (settlement, refl, Develops-refl settlement))
          ((refl, refl), refl)))
      (at_bank (record start { hub = decided }) (BankStep.confirmed "t1" 8 sent) told)

Reach-IsBacked_example : IsBacked "bank-a" settled
Reach-IsBacked_example = Reach-IsBacked "bank-a" run start-IsBacked

handle_requested-Reaches_example :
    HubReaches "bank-a" start (handle_requested (received asked) 6 (λ d. d) hub).1
handle_requested-Reaches_example =
    handle_requested-Reaches "bank-a" 6 (λ d. d) start start here refl (received asked)
      start-Delivered

handle_reply-Reaches_example :
    HubReaches "bank-a" (record start { hub = accepted }) (handle_reply reply 7 (λ d. d) accepted).1
handle_reply-Reaches_example =
    handle_reply-Reaches "bank-a" 7 (λ d. d) (record start { hub = accepted })
      (record start { hub = accepted }) here refl reply refl

handle-Reaches_example :
    Reaches "bank-a"
      (record start { hub = decided })
      (handle (event_received "t1" HubData.Outcome.confirmed none) retry (λ d. d) sent).1
handle-Reaches_example =
    handle-Reaches "bank-a" "t1" retry HubData.Outcome.confirmed none (λ d. d)
      (record start { hub = decided }) (record start { hub = decided }) here refl told

abbrev sweep : Sweep
sweep = record { hub = hub_answer decided; draw = λ id. retry; meanwhile = λ id d. d }

execute-Reaches_example :
    Reaches "bank-a" (record start { bank = bank }) (execute "key" abroad draw nobody config bank).1
execute-Reaches_example =
    execute-Reaches "bank-a" "key" abroad draw nobody config (record start { bank = bank })
      (record start { bank = bank }) (record start { bank = bank }) here here refl refl
      (ground arith)

-- The reconciliation asks the Hub before the request has reached it.
abbrev hasty : Sweep
hasty = record { hub = hub_answer hub; draw = λ id. retry; meanwhile = λ id d. d }

hasty_run : reconcile_one config hasty "t1" sent ≡ (ok true, refunded)
unfolding reconcile_one apply_response hub_answer settlement_by_id get_settlement
    HubSettlements.find_by_id status_of handle Interbank.find_by_id apply_outcome compensate
    Transfers.find_by_id create compensation mark_compensated insert transfer_checks put_transfer
    to_record from_cents entries negated append put_entry ◌+ℤ◌ neg
hasty_run = refl

request_run : handle_requested (received asked) 6 (λ d. d) hub ≡ (ok tt, accepted)
unfolding handle_requested Banks.find_by_id HubSettlements.accept_request from_cents
    HubDomain.create HubSettlements.insert settlement_checks HubDomain.entries negated
    HubLedger.append HubData.put_entry HubData.entry_checks neg
request_run = refl

early_refund_example : IsRefunded refunded "t1" × IsPending accepted "t1"
early_refund_example =
    early_refund config hasty start refunded accepted true (received asked) 6
      (new_row "t1" "bank-b" "ref" 5) (bank_of "bank-b") refl refl refl refl refl refl hasty_run
      request_run
