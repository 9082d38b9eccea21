-- ===== src/Bank/Accounts/Seeding.antt =====
-- How the demo seeding of an account can end.
use mathlib.Core.List.{append_assoc}
use distributed_payment_ledg.Prelude.{
  ℕ, String, ◌≡◌, ◌⊎◌, inl, inr, true, false, [], ◌∷◌, ◌++◌, arith, text_Eq, exists,
  find-none_of_exists, Bool-cases,
}
use distributed_payment_ledg.Exec.{Result, ok, err, transaction, Result-cases}
use distributed_payment_ledg.Money.{Money}
use distributed_payment_ledg.Bank.Domain.{Error, database}
use distributed_payment_ledg.Bank.Database.{
  TransferRow, Database, has_key, transfer_checks, put_transfer,
}
use distributed_payment_ledg.Bank.Ledger.{balance_of}
use distributed_payment_ledg.Bank.Posting.{recorded, post, debit_of, credit_of, IsPostable}
use distributed_payment_ledg.Bank.Posting.Book.{
  put_transfer-cases, put_entry-debit, put_entry-credit,
}
use distributed_payment_ledg.Bank.Transfers.Insertion.{transfer_checks-holds}
use distributed_payment_ledg.Bank.Accounts.{
  seed_row, seed, get_account, get_balance, find_by_id, dev_seed,
}

pub get_account-reads : (id : String) (db : Database) → (get_account id db).1 ≡ db
unfolding get_account find_by_id
get_account-reads id db = ground arith

pub get_balance-reads : (id : String) (db : Database) → (get_balance id db).1 ≡ db
unfolding get_balance get_account find_by_id balance_of
get_balance-reads id db = ground arith

module _ (account : String) (amount : Money) (uuid : String) (now : ℕ) (db : Database) where
  abbrev row : TransferRow
  row = seed_row account amount uuid now

  -- The transaction of the seeding fails and changes nothing, or books one transfer.
  pub data Seeding (out : Result Error (Unit {0}) × Database) : Type 0 where
    failed : (e : Error) → out ≡ (err e, db) → Seeding out
    seeded : IsPostable row db → out ≡ (ok tt, post row db) → Seeding out

  recorded-Seeding :
      transfer_checks row ≡ true
      → exists (has_key row.idempotency_key) db.transfers ≡ false
      → put_transfer row db ≡ (ok tt, recorded row db)
      → IsPostable row db
      → Seeding (transaction (seed account amount uuid now) db)
  unfolding seed
  recorded-Seeding checks free put p = seeded p (
      ground (
        arith,
        put_entry-debit row db p.positive p.has_payer,
        put_entry-credit row db p.positive (db.ledger_entries ++ debit_of row ∷ []) p.has_payee,
        append_assoc db.ledger_entries (debit_of row ∷ []) (credit_of row ∷ []),
      ))

  free-Seeding :
      transfer_checks row ≡ true
      → exists (has_key row.idempotency_key) db.transfers ≡ false
      → Seeding (transaction (seed account amount uuid now) db)
  unfolding seed
  free-Seeding checks free =
      let (positive, distinct) = transfer_checks-holds row checks in
      elim (put_transfer-cases row db positive) [
        | inl no_keys ↦ failed database (ground arith)
        | inr (put, fresh, payer, payee) ↦ recorded-Seeding checks free put (record {
          positive = positive;
          distinct = distinct;
          fresh_key = find-none_of_exists (has_key row.idempotency_key) db.transfers free;
          fresh_id = fresh;
          has_payer = payer;
          has_payee = payee;
        })
      ]

  pub seed-Seeding : Seeding (transaction (seed account amount uuid now) db)
  unfolding seed
  seed-Seeding = elim (Bool-cases (transfer_checks row)) [
    | inr bad ↦ failed database (ground arith)
    | inl checks ↦ elim (Bool-cases (exists (has_key row.idempotency_key) db.transfers)) [
      | inl taken ↦ failed database (ground arith)
      | inr free ↦ free-Seeding checks free
    ]
  ]

  -- The database after `devSeed` is the one before it, or that after its transaction.
  pub dev_seed-cases :
      ((dev_seed account amount uuid now db).1 ≡ db)
      ⊎ ((dev_seed account amount uuid now db).1
          ≡ (transaction (seed account amount uuid now) db).1)
  unfolding dev_seed
  dev_seed-cases = elim (Result-cases (get_account account db).0) [
    | inr (e, h) ↦ inl (ground (arith, get_account-reads account db))
    | inl (a, h) ↦ elim (Result-cases (transaction (seed account amount uuid now) db).0) [
      | inr (e, k) ↦ inr (ground (arith, get_account-reads account db))
      | inl (u, k) ↦ inr (
          ground (
            arith,
            get_account-reads account db,
            get_balance-reads account (transaction (seed account amount uuid now) db).1,
          ))
    ]
  ]
