-- ===== src/Bank/Tests/Http.antt =====
-- Runs of the HTTP interface.
use distributed_payment_ledg.Prelude.{◌≡◌, refl, some}
use distributed_payment_ledg.Prelude.Int.{ℤ, pos, neg, ◌+ℤ◌}
use distributed_payment_ledg.Prelude.Texts.{sort_pair}
use distributed_payment_ledg.Money.{from_cents}
use distributed_payment_ledg.Bank.Domain.{create, assert_payer_can_afford}
use distributed_payment_ledg.Bank.Database.{transfer_checks, put_transfer}
use distributed_payment_ledg.Bank.Ledger.{balance_of}
use distributed_payment_ledg.Bank.Transfers.{
  to_record, insert, find_by_idempotency_key, lock_accounts, settle_payer, book_transfer, execute,
}
use distributed_payment_ledg.Money.{integer}
use distributed_payment_ledg.Bank.Http.{
  CreateTransferDto, failure, status_of, create_transfer, respond,
}
use distributed_payment_ledg.Bank.Tests.{bank, nobody, draw}

-- The HTTP interface: a payment that its payer cannot afford, and one that it can.
abbrev body : ℤ → CreateTransferDto
body cents = record {
  payer_account_id = "alice";
  payee_account_id = "bob";
  amount_cents = integer cents;
}

unaffordable_run :
    respond (create_transfer (some "key") (body (pos 5000)) draw nobody) bank ≡ (failure 422, bank)
unfolding create_transfer status_of execute create find_by_idempotency_key book_transfer
    lock_accounts sort_pair insert transfer_checks put_transfer to_record from_cents settle_payer
    balance_of assert_payer_can_afford ◌+ℤ◌ neg
unaffordable_run = refl
