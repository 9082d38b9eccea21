-- ===== src/Bank/Tests.antt =====
-- A small bank, and runs of the account and transfer services on it.
pub mod Saga
mod Suspense
mod Http
use distributed_payment_ledg.Prelude.{String, ◌≡◌, refl, none, some, [], ◌∷◌, arith, find, eq_iff}
use distributed_payment_ledg.Prelude.Int.{ℤ, pos, neg, ◌+ℤ◌, +ℤ-zero}
use distributed_payment_ledg.Prelude.Texts.{sort_pair}
use distributed_payment_ledg.Exec.{ok, err}
use distributed_payment_ledg.Money.{from_cents, negated}
use distributed_payment_ledg.Bank.Domain.{
  Account, Transfer, suspense_account_id, create, entries, assert_payer_can_afford, domain,
  idempotency_conflict,
}
use distributed_payment_ledg.Bank.Database.{
  TransferRow, Database, transfer_checks, put_transfer, put_entry,
}
use distributed_payment_ledg.Bank.Ledger.{balance_of, append}
use distributed_payment_ledg.Bank.Accounts.{dev_treasury_account_id}
use distributed_payment_ledg.Bank.Posting.{journal, post, row_of}
use distributed_payment_ledg.Bank.Transfers.{
  TransferRecord, TransferParams, Draw, Others, to_record, insert, find_by_idempotency_key,
  lock_accounts, settle_payer, book_transfer, replay, replay_winner, execute,
}
use distributed_payment_ledg.Bank.Transfers.Locking.{lock_accounts-opposite, opposite}
use distributed_payment_ledg.Money.{integer}
use distributed_payment_ledg.Prelude.{◌≤◌}
use distributed_payment_ledg.Bank.Domain.{account_not_found}
use distributed_payment_ledg.Bank.Http.{
  CreateTransferDto, success, failure, status_of, create_transfer, respond, to_response,
}
use distributed_payment_ledg.Bank.Http.Answers.{
  status_of-client, IsUntouched, IsCreated, create_transfer-failure,
}
use distributed_payment_ledg.Bank.Step.{Reach, here}
use distributed_payment_ledg.Bank.Step.Refinement.Transfers.{OthersStep, execute-Reach}
use distributed_payment_ledg.Bank.Step.Refinement.Interbank.{execute_interbank-Reach}
use distributed_payment_ledg.Bank.Step.Refinement.Accounts.{create_account-Reach, dev_seed-Reach}
use distributed_payment_ledg.Bank.Step.Refinement.Reply.{handle-Reach, sweep-Reach}
use distributed_payment_ledg.Bank.Interbank.{
  InterbankTransferParams, InterbankTransferResult, Config, open_transfer, accompany, insert_row,
  row_checks, new_row, request, with_request, mark_confirmed, mark_compensated, move_debited,
}
use distributed_payment_ledg.Bank.Interbank
use distributed_payment_ledg.Bank.Transfers
use distributed_payment_ledg.Bank.Database.{InterbankTransferRecord, Status, is_for}
use distributed_payment_ledg.Bank.Reply.{
  Outcome, SettlementOutcomeEvent, handle, apply_outcome, compensate, compensation,
  compensation_key,
}
use distributed_payment_ledg.Bank.Reconciliation.{Sweep, answered, sweep}
use distributed_payment_ledg.Bank.Accounts.{create_account, dev_seed}
use distributed_payment_ledg.Bank.Transfers.Execution.{Execution, execute-Execution}
use distributed_payment_ledg.Bank.Transfers.Retry.{execute-conflict}
use distributed_payment_ledg.Bank.Invariant.Funds.{IsFunded, Reach-IsFunded}
use distributed_payment_ledg.Bank.Invariant.Unique.{IsUnique, Reach-IsUnique}
use distributed_payment_ledg.Bank.Invariant.History.{Extends, Reach-Extends}
use distributed_payment_ledg.Bank.Invariant.Saga.{Develops, Reach-Develops}
use distributed_payment_ledg.Bank.Idempotency.Requests.{execute-retry}
use distributed_payment_ledg.Bank.Idempotency.Outcomes.{handle-redelivered}
use distributed_payment_ledg.Bank.Idempotency.Refunds.{refund_once, squatted-no_refund}
use distributed_payment_ledg.Prelude.Int.{negsuc}
use distributed_payment_ledg.Prelude.{List}
use distributed_payment_ledg.Bank.Ledger.{StatementLine, statement_of, to_lines}
use distributed_payment_ledg.Bank.Ledger.Statement.{sum_of_lines, statement_of-balance_of}
use distributed_payment_ledg.Bank.Invariant.Journal.{double_entry, sum_of_transfer}

abbrev pub account : String → Account
account id = record { id = id; owner_name = "owner"; created_at = 0 }

abbrev pub seed : TransferRow
seed = record {
  id = "seed";
  idempotency_key = "dev-seed-seed";
  payer_account_id = dev_treasury_account_id;
  payee_account_id = "alice";
  amount = pos 1000;
  created_at = 1;
}

-- Four accounts, of which one has been given 1,000 cents.
abbrev pub bank : Database
bank = record {
  accounts =
      account suspense_account_id
      ∷ account dev_treasury_account_id
      ∷ account "alice"
      ∷ account "bob"
      ∷ [];
  transfers = seed ∷ [];
  ledger_entries = journal seed;
  interbank_transfers = [];
  outbox = record { rows = []; next_id = 1 };
}

abbrev pub nobody : Others
nobody = record { before_begin = λ d. d; after_rollback = λ d. d }

pub nobody-OthersStep : OthersStep nobody
nobody-OthersStep = record { before_begin = λ d. here; after_rollback = λ d. here }

abbrev pub params : TransferParams
params = record {
  payer_account_id = "alice";
  payee_account_id = "bob";
  amount = record { cents = pos 300 };
}

abbrev pub draw : Draw
draw = record { uuid = "t1"; now = 5 }

abbrev pub paid : Transfer
paid = record {
  id = "t1";
  payer_account_id = "alice";
  payee_account_id = "bob";
  amount = record { cents = pos 300 };
}

abbrev pub receipt : TransferRecord
receipt = record {
  id = "t1";
  payer_account_id = "alice";
  payee_account_id = "bob";
  amount = record { cents = pos 300 };
  created_at = 5;
}

abbrev pub after : Database
after = post (row_of paid "key" 5) bank

execute_run : execute "key" params draw nobody bank ≡ (ok receipt, after)
unfolding execute create find_by_idempotency_key book_transfer lock_accounts sort_pair insert
    transfer_checks put_transfer to_record from_cents settle_payer balance_of
    assert_payer_can_afford entries negated append put_entry ◌+ℤ◌ neg
execute_run = refl

double_entry_example :
    sum_of_transfer "t1" (execute "key" params draw nobody bank).1.ledger_entries ≡ pos 0
double_entry_example =
    double_entry "t1" (execute-Reach "key" params draw nobody bank nobody-OthersStep (ground arith))
      refl

payment : Reach bank (execute "key" params draw nobody bank).1
payment = execute-Reach "key" params draw nobody bank nobody-OthersStep (ground arith)

execute-Execution_example :
    Execution "key" params draw nobody bank (execute "key" params draw nobody bank)
execute-Execution_example = execute-Execution "key" params draw nobody bank (ground arith)

bank-IsFunded : IsFunded bank
bank-IsFunded a no_suspense no_treasury =
    ground (arith, eq_iff dev_treasury_account_id a, +ℤ-zero (pos 1000))

Reach-IsFunded_example : IsFunded (execute "key" params draw nobody bank).1
Reach-IsFunded_example = Reach-IsFunded payment bank-IsFunded

-- A retry with another random id and a later time.
abbrev pub retry : Draw
retry = record { uuid = "t2"; now = 9 }

execute-retry_example : execute "key" params retry nobody after ≡ (ok receipt, after)
execute-retry_example =
    execute-retry "key" params draw retry nobody nobody bank (ground arith) execute_run here

abbrev pub other_params : TransferParams
other_params = record params { amount = record { cents = pos 301 } }

receipt_read : to_record (row_of paid "key" 5) ≡ ok receipt
unfolding to_record from_cents
receipt_read = refl

execute-conflict_example :
    execute "key" other_params retry nobody after ≡ (err (domain idempotency_conflict), after)
execute-conflict_example =
    execute-conflict "key" other_params (row_of paid "key" 5) receipt retry nobody after
      (record { positive = refl; distinct = λ e. ground (arith, eq_iff "alice" "bob") }) refl
      receipt_read (λ agrees. ground (arith, agrees.2))

-- A statement and a balance of the payer after the payment.
abbrev lines : List StatementLine
lines =
    record { transfer_id = "t1"; amount = record { cents = negsuc 299 }; created_at = 5 }
    ∷ record { transfer_id = "seed"; amount = record { cents = pos 1000 }; created_at = 1 }
    ∷ []

statement_run : statement_of "alice" 50 after ≡ (ok lines, after)
unfolding statement_of to_lines from_cents ◌+ℤ◌ neg
statement_run = refl

balance_run : balance_of "alice" after ≡ (ok (record { cents = pos 700 }), after)
unfolding balance_of from_cents ◌+ℤ◌ neg
balance_run = refl

statement_of-balance_of_example : sum_of_lines lines ≡ pos 700
statement_of-balance_of_example =
    statement_of-balance_of "alice" 50 after lines (record { cents = pos 700 }) (ground arith)
      statement_run balance_run
