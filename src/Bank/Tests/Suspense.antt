-- ===== src/Bank/Tests/Suspense.antt =====
-- Runs of a transfer to another bank: what the suspense account holds, and what a query answers.
use distributed_payment_ledg.Prelude.{◌≡◌, refl, arith}
use distributed_payment_ledg.Exec.{ok}
use distributed_payment_ledg.Bank.Interbank.{get_transfer}
use distributed_payment_ledg.Bank.Interbank
use distributed_payment_ledg.Bank.Interbank.Answered.{execute-get_transfer}
use distributed_payment_ledg.Bank.Invariant.Suspense.{IsHeld}
use distributed_payment_ledg.Bank.Invariant.Suspense.Operations.{execute-IsHeld}
use distributed_payment_ledg.Bank.Tests.{bank, nobody, draw}
use distributed_payment_ledg.Bank.Tests.Saga.{config, abroad, sent, sent_result, interbank_run}

bank-IsHeld : IsHeld bank
bank-IsHeld = record { companions = tt; balance = refl }

execute-IsHeld_example : IsHeld (Interbank.execute "key" abroad draw nobody config bank).1
execute-IsHeld_example =
    execute-IsHeld "key" abroad draw nobody config bank bank-IsHeld bank-IsHeld bank-IsHeld
      (omega arith)

execute-get_transfer_example : get_transfer sent_result.transfer.id sent ≡ (ok sent_result, sent)
execute-get_transfer_example =
    execute-get_transfer "key" abroad draw nobody config bank ((refl, refl), tt) ((refl, refl), tt)
      sent sent_result (omega arith) interbank_run
