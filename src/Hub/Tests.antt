-- ===== src/Hub/Tests.antt =====
-- Runs of the Hub with two banks.
use distributed_payment_ledg.Prelude.{String, ◌≡◌, refl, some, [], ◌∷◌, find, ap, subst}
use distributed_payment_ledg.Prelude.Int.{pos, neg, ◌+ℤ◌}
use distributed_payment_ledg.Exec.{ok}
use distributed_payment_ledg.Money.{integer, from_cents, negated}
use distributed_payment_ledg.Hub.Domain.{Bank, create, entries, reversal_entries}
use distributed_payment_ledg.Hub.Database.{
  Database, SettlementRecord, has_id, settlement_checks, entry_checks, put_entry,
}
use distributed_payment_ledg.Hub.Ledger.{append, reserve_of}
use distributed_payment_ledg.Hub.Banks
use distributed_payment_ledg.Hub.Banks.{register_bank}
use distributed_payment_ledg.Hub.Settlements
use distributed_payment_ledg.Hub.Settlements.{
  SettlementRequestedEvent, SettlementReplyEvent, ReplyOutcome, insert, accept_request,
  reject_request, handle_requested, apply_reply, reverse, mark_reversed, mark_confirmed,
  handle_reply,
}
use distributed_payment_ledg.Hub.Settlements.Requests.{accepted_row, accepted_state}
use distributed_payment_ledg.Hub.Settlements.Resolution.{reversed_state}
use distributed_payment_ledg.Hub.Step.{here, Develops}
use distributed_payment_ledg.Hub.Step.Refinement.{handle_requested-Reach, handle_reply-Reach}
use distributed_payment_ledg.Hub.Invariant.Balance.{IsBalanced, Reach-IsBalanced}
use distributed_payment_ledg.Hub.Invariant.History.{settlement-Develops}
use distributed_payment_ledg.Hub.Invariant.Positions.{net, IsSettled}
use distributed_payment_ledg.Hub.Invariant.Positions.Operations.{
  handle_requested-IsSettled, handle_reply-IsSettled,
}
use distributed_payment_ledg.Hub.Redelivery.Request.{request_redelivered}
use distributed_payment_ledg.Hub.Redelivery.Reply.{reply_redelivered}
use distributed_payment_ledg.Hub.Races.{reversed_twice}

abbrev bank : String → Bank
bank id = record { id = id; name = "Bank"; base_url = "http://bank"; created_at = 0 }

abbrev hub : Database
hub = record {
  banks = bank "a" ∷ bank "b" ∷ [];
  ledger_entries = [];
  settlements = [];
  outbox = record { rows = []; next_id = 1 };
}

abbrev asked : SettlementRequestedEvent
asked = record {
  settlement_id = "s";
  payer_bank_id = "a";
  payee_bank_id = "b";
  payee_account_ref = "ref";
  amount_cents = integer (pos 250);
}

abbrev accepted : Database
accepted = accepted_state asked 4 (pos 250) hub

request_run : handle_requested asked 4 (λ d. d) hub ≡ (ok tt, accepted)
unfolding handle_requested Banks.find_by_id accept_request from_cents create insert
    settlement_checks entries negated append put_entry entry_checks neg
request_run = refl

abbrev answer : ReplyOutcome → SettlementReplyEvent
answer o = record { settlement_id = "s"; outcome = o; reason = some "CLOSED" }

abbrev row : SettlementRecord
row = accepted_row asked 4 (pos 250)

abbrev reversed_once : Database
reversed_once = reversed_state row (answer ReplyOutcome.reversed) 6 accepted

reply_run : handle_reply (answer ReplyOutcome.reversed) 6 (λ d. d) accepted ≡ (ok tt, reversed_once)
unfolding handle_reply Settlements.find_by_id apply_reply reverse from_cents create reversal_entries
    negated append put_entry entry_checks mark_reversed neg
reply_run = refl

-- The second delivery has read the row before the first one committed.
abbrev reversed_again : Database
reversed_again = reversed_state row (answer ReplyOutcome.reversed) 7 reversed_once

race_run :
    handle_reply (answer ReplyOutcome.reversed) 7 (λ _. reversed_once) accepted
    ≡ (ok tt, reversed_again)
unfolding handle_reply Settlements.find_by_id apply_reply reverse from_cents create reversal_entries
    negated append put_entry entry_checks mark_reversed neg
race_run = refl

reversed_twice_example :
    net "a" row +ℤ (net "a" row +ℤ reserve_of "a" reversed_again.ledger_entries)
    ≡ reserve_of "a" accepted.ledger_entries
reversed_twice_example =
    reversed_twice (answer ReplyOutcome.reversed) row 6 7 accepted reversed_once reversed_again "a"
      refl refl refl reply_run race_run

Reach-IsBalanced_example : IsBalanced (handle_requested asked 4 (λ d. d) hub).1
Reach-IsBalanced_example = Reach-IsBalanced (handle_requested-Reach 4 (λ d. d) hub here asked) refl

settlement-Develops_example :
    (row' : SettlementRecord) × (find
        (has_id "s")
        (handle_reply (answer ReplyOutcome.confirmed) 6 (λ d. d) accepted).1.settlements
      ≡ some row')
    × Develops row row'
settlement-Develops_example =
    settlement-Develops "s" row
      (handle_reply-Reach 6 (λ d. d) accepted here (answer ReplyOutcome.confirmed)) refl

hub-IsSettled : IsSettled hub
hub-IsSettled = record { distinct = tt; settled = λ bank. refl }

handle_requested-IsSettled_example : IsSettled (handle_requested asked 4 (λ d. d) hub).1
handle_requested-IsSettled_example = handle_requested-IsSettled asked 4 (λ d. d) hub hub-IsSettled

accepted-IsSettled : IsSettled accepted
accepted-IsSettled =
    subst IsSettled (ap (λ o. o.1) request_run)
      (handle_requested-IsSettled asked 4 (λ d. d) hub hub-IsSettled)

handle_reply-IsSettled_example :
    IsSettled (handle_reply (answer ReplyOutcome.reversed) 6 (λ d. d) accepted).1
handle_reply-IsSettled_example =
    handle_reply-IsSettled (answer ReplyOutcome.reversed) 6 (λ d. d) accepted accepted-IsSettled
      accepted-IsSettled refl

request_redelivered_example : (handle_requested asked 9 (λ d. d) accepted).1 ≡ accepted
request_redelivered_example =
    request_redelivered asked 4 9 (λ d. d) (λ d. d) hub accepted accepted request_run here here

reply_redelivered_example :
    handle_reply (answer ReplyOutcome.confirmed) 9 (λ d. d) reversed_once ≡ (ok tt, reversed_once)
reply_redelivered_example =
    reply_redelivered (answer ReplyOutcome.reversed) (answer ReplyOutcome.confirmed) 6 9 (λ d. d)
      (λ d. d) accepted reversed_once reversed_once here reply_run here refl
