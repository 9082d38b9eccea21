-- ===== src/Bank/Tests/Saga.antt =====
-- Runs of a transfer to another bank: sent, refunded, reconciled, and with its refund's key taken.
use distributed_payment_ledg.Prelude.{
  ◌≡◌, refl, none, some, [], ◌∷◌, arith, find, eq_iff, String, ◌≤◌, ◌-◌, true,
}
use distributed_payment_ledg.Prelude.Int.{pos, neg, ◌+ℤ◌}
use distributed_payment_ledg.Exec.{ok}
use distributed_payment_ledg.Money.{from_cents, negated}
use distributed_payment_ledg.Bank.Domain.{
  Transfer, suspense_account_id, create, entries, assert_payer_can_afford,
}
use distributed_payment_ledg.Bank.Database.{
  TransferRow, Database, transfer_checks, put_transfer, put_entry,
}
use distributed_payment_ledg.Bank.Ledger.{balance_of, append}
use distributed_payment_ledg.Bank.Posting.{post, row_of}
use distributed_payment_ledg.Bank.Transfers.{
  TransferRecord, TransferParams, Draw, Others, to_record, insert, find_by_idempotency_key,
  lock_accounts, settle_payer, book_transfer, replay, replay_winner, execute,
}
use distributed_payment_ledg.Bank.Step.{here}
use distributed_payment_ledg.Bank.Step.Refinement.Interbank.{execute_interbank-Reach}
use distributed_payment_ledg.Bank.Step.Refinement.Reply.{handle-Reach}
use distributed_payment_ledg.Bank.Interbank.{
  InterbankTransferParams, InterbankTransferResult, Config, open_transfer, accompany, insert_row,
  row_checks, new_row, request, with_request, mark_confirmed, mark_compensated, move_debited,
}
use distributed_payment_ledg.Bank.Interbank
use distributed_payment_ledg.Bank.Transfers
use distributed_payment_ledg.Bank.Database.{InterbankTransferRecord, Status, is_for}
use distributed_payment_ledg.Bank.Reply.{
  Outcome, SettlementOutcomeEvent, handle, apply_outcome, compensate, compensation,
  compensation_key,
}
use distributed_payment_ledg.Bank.Reconciliation.{
  Sweep, answered, sweep, reconcile_all, reconcile_one, apply_response, stale_after_ms,
}
use distributed_payment_ledg.Bank.Reconciliation.Progress.{decides, sweep-IsSettled}
use distributed_payment_ledg.Bank.Idempotency.Outcomes.{IsSettled}
use distributed_payment_ledg.Bank.Interbank.{is_stale}
use distributed_payment_ledg.Bank.Invariant.Saga.{Develops, Reach-Develops}
use distributed_payment_ledg.Bank.Idempotency.Outcomes.{handle-redelivered}
use distributed_payment_ledg.Bank.Invariant.Announced.{IsAnnounced, Reach-IsAnnounced}
use distributed_payment_ledg.Bank.Idempotency.Refunds.{refund_once, squatted-no_refund}
use distributed_payment_ledg.Bank.Tests.{bank, nobody, nobody-OthersStep, draw, retry}

-- A transfer to another bank, from the same account.
abbrev pub config : Config
config = record { bank_id = some "bank-a"; hub_url = some "http://hub" }

abbrev pub abroad : InterbankTransferParams
abroad = record {
  payer_account_id = "alice";
  payee_bank_id = "bank-b";
  payee_account_ref = "ref";
  amount = record { cents = pos 400 };
}

abbrev pub outgoing : Transfer
outgoing = record {
  id = "t1";
  payer_account_id = "alice";
  payee_account_id = suspense_account_id;
  amount = record { cents = pos 400 };
}

abbrev pub sent : Database
sent = with_request outgoing abroad "bank-a" (record (post (row_of outgoing "key" 5) bank) {
  interbank_transfers = new_row "t1" "bank-b" "ref" 5 ∷ [];
})

abbrev pub sent_result : InterbankTransferResult
sent_result = record {
  transfer = record {
    id = "t1";
    payer_account_id = "alice";
    payee_account_id = suspense_account_id;
    amount = record { cents = pos 400 };
    created_at = 5;
  };
  interbank = new_row "t1" "bank-b" "ref" 5;
}

pub interbank_run : Interbank.execute "key" abroad draw nobody config bank ≡ (ok sent_result, sent)
unfolding Interbank.execute create find_by_idempotency_key open_transfer accompany insert_row
    row_checks insert transfer_checks put_transfer to_record from_cents settle_payer balance_of
    assert_payer_can_afford entries negated append put_entry ◌+ℤ◌ neg
interbank_run = refl

-- Its reversal, and the state in which that leaves the bank.
abbrev pub event : Outcome → SettlementOutcomeEvent
event o = record { settlement_id = "t1"; outcome = o; reason = some "REASON" }

abbrev back : Transfer
back = record {
  id = "t2";
  payer_account_id = suspense_account_id;
  payee_account_id = "alice";
  amount = record { cents = pos 400 };
}

abbrev pub refunded : Database
refunded =
    move_debited Status.compensated 9 "t1" (post (row_of back (compensation_key "t1") 9) sent)

handle_run : handle (event Outcome.reversed) retry (λ d. d) sent ≡ (ok tt, refunded)
unfolding handle Interbank.find_by_id apply_outcome compensate Transfers.find_by_id create
    compensation mark_compensated insert transfer_checks put_transfer to_record from_cents entries
    negated append put_entry ◌+ℤ◌ neg
handle_run = refl

apply_outcome_run : apply_outcome (event Outcome.reversed) retry sent ≡ (ok tt, refunded)
unfolding apply_outcome compensate Transfers.find_by_id create compensation mark_compensated insert
    transfer_checks put_transfer to_record from_cents entries negated append put_entry ◌+ℤ◌ neg
apply_outcome_run = refl

handle-redelivered_example :
    handle (event Outcome.confirmed) draw (λ d. d) refunded ≡ (ok tt, refunded)
handle-redelivered_example =
    handle-redelivered (event Outcome.reversed) (event Outcome.confirmed) retry draw (λ d. d)
      (λ d. d) sent refl here handle_run here

refund_once_example :
    ((apply_outcome (event Outcome.rejected) draw refunded).1.transfers ≡ refunded.transfers)
    × ((apply_outcome (event Outcome.rejected) draw refunded).1.ledger_entries
        ≡ refunded.ledger_entries)
refund_once_example =
    refund_once (event Outcome.reversed) (event Outcome.rejected) retry draw sent refl (λ e. cc)
      apply_outcome_run here

Reach-Develops_example :
    (row' : InterbankTransferRecord) × (find
        (is_for "t1")
        (handle (event Outcome.reversed) retry (λ d. d) sent).1.interbank_transfers
      ≡ some row')
    × Develops (new_row "t1" "bank-b" "ref" 5) row'
Reach-Develops_example =
    Reach-Develops "t1" (new_row "t1" "bank-b" "ref" 5)
      (handle-Reach (event Outcome.reversed) retry (λ d. d) sent here) refl

abbrev answers : Sweep
answers = record { hub = λ id. answered 404 none; draw = λ id. retry; meanwhile = λ id d. d }

-- A client of the bank has used the key under which the refund would be booked.
abbrev squat : TransferRow
squat = record {
  id = "t0";
  idempotency_key = "compensation-t1";
  payer_account_id = "alice";
  payee_account_id = "bob";
  amount = pos 1;
  created_at = 2;
}

abbrev squatted : Database
squatted = record (post (row_of outgoing "key" 5) (post squat bank)) {
  interbank_transfers = new_row "t1" "bank-b" "ref" 5 ∷ [];
}

squatted-no_refund_example :
    handle (event Outcome.reversed) retry (λ d. d) squatted
    ≡ (ok tt, move_debited Status.compensated 9 "t1" squatted)
squatted-no_refund_example =
    squatted-no_refund (event Outcome.reversed) retry squatted (λ e. cc)
      (record {
        row = new_row "t1" "bank-b" "ref" 5;
        found = refl;
        waits = refl;
        stored = row_of outgoing "key" 5;
        local = refl;
        safe = ground arith;
        positive = ground arith;
        not_suspense = λ e. ground (arith, eq_iff suspense_account_id "alice");
        key_fits = refl;
        squatter = squat;
        taken = refl;
      })

-- A reversal that was read before a confirmation committed.
abbrev confirmed_first : Database
confirmed_first = move_debited Status.confirmed 8 "t1" sent

abbrev paid_twice : Database
paid_twice =
    move_debited Status.compensated 9 "t1"
      (post (row_of back (compensation_key "t1") 9) confirmed_first)

Reach-IsAnnounced_example : IsAnnounced (Interbank.execute "key" abroad draw nobody config bank).1
Reach-IsAnnounced_example =
    Reach-IsAnnounced
      (execute_interbank-Reach "key" abroad draw nobody config bank nobody-OthersStep
        (ground arith))
      refl

sweep_run : sweep config answers 400000 sent ≡ (ok (1, 1), refunded)
unfolding sweep Interbank.find_stale_debited Interbank.order_by_updated_at Interbank.place
    reconcile_all reconcile_one apply_response handle Interbank.find_by_id apply_outcome compensate
    Transfers.find_by_id create compensation mark_compensated insert transfer_checks put_transfer
    to_record from_cents entries negated append put_entry ◌+ℤ◌ neg
sweep_run = refl

sweep-IsSettled_example :
    (1 ≤ 1)
    × ((id : String) (row : InterbankTransferRecord)
        → find (is_for id) sent.interbank_transfers ≡ some row
        → is_stale (400000 - stale_after_ms) row ≡ true
        → decides (answers.hub id) ≡ true
        → IsSettled id refunded)
sweep-IsSettled_example =
    sweep-IsSettled config answers (record { meanwhile = λ id d. here }) 400000 1 1 sent refunded
      sweep_run
