-- ===== src/Bank/Posting.antt =====
-- The specification of a booking: one row of `transfers` with the two entries that it produces.
pub mod Book
use distributed_payment_ledg.Prelude.{
  ℕ, String, ◌≡◌, ◌≢◌, true, false, none, List, [], ◌∷◌, ◌++◌, find, exists,
}
use distributed_payment_ledg.Prelude.Int.{ℤ, pos, neg, ◌<ℤ◌}
use distributed_payment_ledg.Bank.Domain.{Transfer}
use distributed_payment_ledg.Bank.Database.{
  TransferRow, EntryRow, Database, has_account, has_key, has_id,
}

-- The row that `insert` writes.
abbrev pub row_of : Transfer → String → ℕ → TransferRow
row_of t key now = record {
  id = t.id;
  idempotency_key = key;
  payer_account_id = t.payer_account_id;
  payee_account_id = t.payee_account_id;
  amount = t.amount.cents;
  created_at = now;
}

abbrev pub debit_of : TransferRow → EntryRow
debit_of row = record {
  transfer_id = row.id;
  account_id = row.payer_account_id;
  amount = neg row.amount;
  created_at = row.created_at;
}

abbrev pub credit_of : TransferRow → EntryRow
credit_of row = record {
  transfer_id = row.id;
  account_id = row.payee_account_id;
  amount = row.amount;
  created_at = row.created_at;
}

-- The double entry of a transfer.
abbrev pub journal : TransferRow → List EntryRow
journal row = debit_of row ∷ credit_of row ∷ []

-- The transfer is recorded.
abbrev pub recorded : TransferRow → Database → Database
recorded row db = record db { transfers = db.transfers ++ row ∷ [] }

-- The transfer is recorded, and both of its entries are appended.
abbrev pub post : TransferRow → Database → Database
post row db = record db {
  transfers = db.transfers ++ row ∷ [];
  ledger_entries = db.ledger_entries ++ journal row;
}

-- What the checks and the keys of the tables grant of a row that was inserted.
pub record IsPostable (row : TransferRow) (db : Database) : Type 0 where
  pub positive : pos 0 <ℤ row.amount
  pub distinct : row.payer_account_id ≢ row.payee_account_id
  pub fresh_key : find (has_key row.idempotency_key) db.transfers ≡ none
  pub fresh_id : exists (has_id row.id) db.transfers ≡ false
  pub has_payer : has_account row.payer_account_id db ≡ true
  pub has_payee : has_account row.payee_account_id db ≡ true
