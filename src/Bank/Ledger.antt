-- ===== src/Bank/Ledger.antt =====
-- `LedgerRepository` (src/ledger/ledger.repository.ts): balances are sums of entries, entries are
-- appended one by one, and a statement lists the latest first.
pub mod Balance
pub mod Statement
use mathlib.Core.List.{reverse}
use distributed_payment_ledg.Prelude.{
  ℕ, String, Bool, List, [], ◌∷◌, ◌==◌, text_Eq, take, select, if◌then◌else◌,
}
use distributed_payment_ledg.Prelude.Int.{ℤ, pos, ◌+ℤ◌}
use distributed_payment_ledg.Exec.{Result, ok, err, map_err, pure, gets, ◌>>=◌, ◌>>◌}
use distributed_payment_ledg.Money.{Money, integer, from_cents}
use distributed_payment_ledg.Bank.Domain.{DomainError, LedgerEntry, invalid_amount}
use distributed_payment_ledg.Bank.Database.{EntryRow, Database, Action, raise, put_entry}

-- `SUM(amount) … WHERE account_id = $1`, an exact numeric; 0 for no row.
abbrev pub sum_of : String → List EntryRow → ℤ
sum_of account [] = pos 0
sum_of account (e ∷ es) =
    let rest = sum_of account es in if e.account_id == account then e.amount +ℤ rest else rest

unfoldable pub balance_of : String → Action Money
balance_of account db =
    raise (map_err invalid_amount (from_cents (integer (sum_of account db.ledger_entries)))) db

abbrev pub to_entry_row : ℕ → LedgerEntry → EntryRow
to_entry_row now e = record {
  transfer_id = e.transfer_id;
  account_id = e.account_id;
  amount = e.amount.cents;
  created_at = now;
}

unfoldable pub append : ℕ → List LedgerEntry → Action (Unit {0})
append now [] = pure tt
append now (e ∷ es) = do put_entry (to_entry_row now e); append now es

pub record StatementLine : Type 0 where
  pub transfer_id : String
  pub amount : Money
  pub created_at : ℕ

abbrev pub to_line : EntryRow → Result DomainError StatementLine
to_line row = elim (from_cents (integer row.amount)) [
  | ok m ↦ ok (record { transfer_id = row.transfer_id; amount = m; created_at = row.created_at })
  | err e ↦ err (invalid_amount e)
]

unfoldable pub to_lines : List EntryRow → Result DomainError (List StatementLine)
to_lines [] = ok []
to_lines (row ∷ rows) = elim (to_line row) [
  | err e ↦ err e
  | ok line ↦ elim (to_lines rows) [ ok lines ↦ ok (line ∷ lines) | err e ↦ err e ]
]

abbrev pub of_account : String → EntryRow → Bool
of_account account row = row.account_id == account

-- `ORDER BY id DESC LIMIT $2`
unfoldable pub statement_of : String → ℕ → Action (List StatementLine)
unfolding to_lines
statement_of account limit db =
    raise (to_lines (take limit (reverse (select (of_account account) db.ledger_entries)))) db

-- The limit that a call leaves out.
abbrev pub default_limit : ℕ
default_limit = 50
