-- ===== src/Hub/Ledger.antt =====
-- `LedgerRepository` of the Hub (hub/src/ledger/ledger.repository.ts).
use distributed_payment_ledg.Prelude.{ℕ, String, List, [], ◌∷◌, ◌==◌, text_Eq, if◌then◌else◌}
use distributed_payment_ledg.Prelude.Int.{ℤ, pos, ◌+ℤ◌}
use distributed_payment_ledg.Exec.{map_err, pure, ◌>>◌}
use distributed_payment_ledg.Money.{Money, integer, from_cents}
use distributed_payment_ledg.Hub.Domain.{ReserveEntry, invalid_amount}
use distributed_payment_ledg.Hub.Database.{ReserveRow, Action, raise, put_entry}

-- `SUM(amount) … WHERE bank_id = $1`; 0 for no row.
abbrev pub reserve_of : String → List ReserveRow → ℤ
reserve_of bank [] = pos 0
reserve_of bank (e ∷ es) =
    let rest = reserve_of bank es in if e.bank_id == bank then e.amount +ℤ rest else rest

unfoldable pub reserve_balance_of : String → Action Money
reserve_balance_of bank db =
    raise (map_err invalid_amount (from_cents (integer (reserve_of bank db.ledger_entries)))) db

abbrev pub to_reserve_row : ℕ → ReserveEntry → ReserveRow
to_reserve_row now e = record {
  settlement_id = e.settlement_id;
  bank_id = e.bank_id;
  amount = e.amount.cents;
  created_at = now;
}

unfoldable pub append : ℕ → List ReserveEntry → Action (Unit {0})
append now [] = pure tt
append now (e ∷ es) = do put_entry (to_reserve_row now e); append now es
