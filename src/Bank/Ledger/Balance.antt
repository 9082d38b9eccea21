-- ===== src/Bank/Ledger/Balance.antt =====
-- What a balance query returns.
use distributed_payment_ledg.Prelude.{String, ◌≡◌, ◌⊎◌, inl, inr, arith}
use distributed_payment_ledg.Exec.{ok, err, Result-cases}
use distributed_payment_ledg.Money.{integer, from_cents}
use distributed_payment_ledg.Money.Laws.{from_cents-ok}
use distributed_payment_ledg.Bank.Domain.{Error, domain, invalid_amount}
use distributed_payment_ledg.Bank.Database.{Database}
use distributed_payment_ledg.Bank.Ledger.{balance_of, sum_of}

-- A balance is the sum of the account's entries, or an amount error where that sum is not safe.
pub balance_of-cases :
    (account : String) (db : Database)
    → (balance_of account db ≡ (ok (record { cents = sum_of account db.ledger_entries }), db))
      ⊎ ((e : Error) × (balance_of account db ≡ (err e, db)))
unfolding balance_of
balance_of-cases account db =
    elim (Result-cases (from_cents (integer (sum_of account db.ledger_entries)))) [
      | inl (m, e) ↦
          inl (ground (arith, from_cents-ok (integer (sum_of account db.ledger_entries)) m))
      | inr (e, h) ↦ inr (domain (invalid_amount e), rw h)
    ]
