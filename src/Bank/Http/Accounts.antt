-- ===== src/Bank/Http/Accounts.antt =====
-- `AccountsController` (src/accounts/accounts.controller.ts).
use distributed_payment_ledg.Prelude.{ℕ, String, Bool, List, map}
use distributed_payment_ledg.Prelude.Int.{ℤ}
use distributed_payment_ledg.Exec.{pure, ◌>>=◌, ◌>>◌}
use distributed_payment_ledg.Money.{Number}
use distributed_payment_ledg.Bank.Domain.{Account}
use distributed_payment_ledg.Bank.Ledger.{StatementLine}
use distributed_payment_ledg.Bank.Accounts.{
  create_account, get_account, get_balance, get_statement, dev_seed,
}
use distributed_payment_ledg.Bank.Http.{Handler, service, money, checked_id}

pub record BalanceResponse : Type 0 where
  pub account_id : String
  pub balance_cents : ℤ

pub record StatementEntry : Type 0 where
  pub transfer_id : String
  pub amount_cents : ℤ
  pub created_at : ℕ

pub record StatementResponse : Type 0 where
  pub account_id : String
  pub entries : List StatementEntry

abbrev pub to_entry : StatementLine → StatementEntry
to_entry line = record {
  transfer_id = line.transfer_id;
  amount_cents = line.amount.cents;
  created_at = line.created_at;
}

-- `AccountsController.create`
unfoldable pub post_account : String → String → ℕ → Handler Account
post_account owner_name id now = service (create_account owner_name id now)

module _ (is_uuid : String → Bool) where
  -- `AccountsController.get`
  unfoldable pub get_account_by_id : String → Handler Account
  get_account_by_id id = checked_id is_uuid id >> service (get_account id)

  -- `AccountsController.balance`
  unfoldable pub balance : String → Handler BalanceResponse
  balance id = do
    checked_id is_uuid id
    b ← service (get_balance id)
    pure (record { account_id = id; balance_cents = b.cents })

  -- `AccountsController.statement`
  unfoldable pub statement : String → Handler StatementResponse
  statement id = do
    checked_id is_uuid id
    lines ← service (get_statement id)
    pure (record { account_id = id; entries = map to_entry lines })

  -- `AccountsController.devSeed`
  unfoldable pub post_dev_seed : String → Number → String → ℕ → Handler BalanceResponse
  post_dev_seed id amount_cents uuid now = do
    checked_id is_uuid id
    amount ← money amount_cents
    b ← service (dev_seed id amount uuid now)
    pure (record { account_id = id; balance_cents = b.cents })
