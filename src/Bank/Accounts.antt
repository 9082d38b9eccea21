-- ===== src/Bank/Accounts.antt =====
-- Accounts (src/accounts): the repository and the service, with the demo seeding.
pub mod Seeding
use distributed_payment_ledg.Prelude.{
  ℕ, String, not, Option, none, some, List, [], ◌∷◌, ◌++◌, ◌==◌, text_Eq, find, exists,
}
use distributed_payment_ledg.Prelude.Texts.{◌<>◌}
use distributed_payment_ledg.Prelude.Int.{neg}
use distributed_payment_ledg.Exec.{
  err, Ending, commit, transaction, pure, throw_if, gets, modify, ◌>>=◌, ◌>>◌,
}
use distributed_payment_ledg.Money.{Money}
use distributed_payment_ledg.Bank.Domain.{Account, database, account_not_found}
use distributed_payment_ledg.Bank.Database.{
  TransferRow, Database, has_account, has_key, length_within, transfer_checks, Action, raise,
  put_transfer, put_entry,
}
use distributed_payment_ledg.Bank.Ledger.{balance_of, StatementLine, statement_of, default_limit}

-- `INSERT INTO accounts`, whose id is the database's `gen_random_uuid()`.
unfoldable pub create : String → String → ℕ → Action Account
create owner_name id now = do
  throw_if (not (length_within 120 owner_name)) database
  taken ← gets (has_account id)
  throw_if taken database
  let account : Account = record { id = id; owner_name = owner_name; created_at = now }
  modify (λ db. record db { accounts = db.accounts ++ account ∷ [] })
  pure account

unfoldable pub find_by_id : String → Action (Option Account)
find_by_id id = gets (λ db. find (λ a. a.id == id) db.accounts)

unfoldable pub create_account : String → String → ℕ → Action Account
unfolding create
create_account owner_name id now = create owner_name id now

unfoldable pub get_account : String → Action Account
unfolding find_by_id
get_account id = do
  account ← find_by_id id
  elim account [ none ↦ raise (err (account_not_found id)) | some a ↦ pure a ]

unfoldable pub get_balance : String → Action Money
unfolding get_account
get_balance id = do get_account id; balance_of id

unfoldable pub get_statement : String → Action (List StatementLine)
unfolding get_account
get_statement id = do get_account id; statement_of id default_limit

abbrev pub dev_treasury_account_id : String
dev_treasury_account_id = "00000000-0000-0000-0000-000000000099"

-- The transfer that seeds an account.
abbrev pub seed_row : String → Money → String → ℕ → TransferRow
seed_row account amount uuid now = record {
  id = uuid;
  idempotency_key = "dev-seed-" <> uuid;
  payer_account_id = dev_treasury_account_id;
  payee_account_id = account;
  amount = amount.cents;
  created_at = now;
}

-- Both statements of the transaction of `devSeed`; a taken key violates the unique constraint.
unfoldable pub seed : String → Money → String → ℕ → Action (Ending (Unit {0}))
seed account amount uuid now = do
  let row = seed_row account amount uuid now
  throw_if (not (transfer_checks row)) database
  taken ← gets (λ db. exists (has_key row.idempotency_key) db.transfers)
  throw_if taken database
  put_transfer row
  put_entry (record {
    transfer_id = uuid;
    account_id = dev_treasury_account_id;
    amount = neg amount.cents;
    created_at = now;
  })
  put_entry
      (record { transfer_id = uuid; account_id = account; amount = amount.cents; created_at = now })
  pure (commit tt)

unfoldable pub dev_seed : String → Money → String → ℕ → Action Money
unfolding get_account get_balance
dev_seed account amount uuid now = do
  get_account account
  transaction (seed account amount uuid now)
  get_balance account
