-- ===== src/Bank/Posting/Book.antt =====
-- The statements that book a transfer: inserting its row, then its two entries.
use distributed_payment_ledg.Prelude.{
  ℕ, String, ◌≡◌, ◌⊎◌, true, false, List, [], ◌∷◌, ◌++◌, arith, text_Eq, eq_refl, exists,
  exists-append, find, find-append_none, find-none_of_exists, ◌∙◌, some,
}
use distributed_payment_ledg.Prelude.Int.{pos, neg, ◌<ℤ◌}
use mathlib.Core.List.{append_assoc}
use distributed_payment_ledg.Exec.{ok, err, ◌>>=◌}
use distributed_payment_ledg.Money.{IsSafe}
use distributed_payment_ledg.Money.Laws.{negated-safe}
use distributed_payment_ledg.Bank.Domain.{Transfer, database, entries}
use distributed_payment_ledg.Bank.Database.{
  TransferRow, EntryRow, Database, has_account, has_id, transfer_keys, entry_checks, put_transfer,
  put_entry, raise,
}
use distributed_payment_ledg.Bank.Ledger.{append}
use distributed_payment_ledg.Bank.Posting.{row_of, debit_of, credit_of, recorded, post}

-- A row just recorded is found by its id.
pub exists-recorded :
    (row : TransferRow) (db : Database) → exists (has_id row.id) (recorded row db).transfers ≡ true
exists-recorded row db =
    ground (arith, exists-append (has_id row.id) db.transfers (row ∷ []), eq_refl row.id)

-- A booking whose id is free is found by it.
pub find-posted :
    (row : TransferRow) (db : Database)
    → exists (has_id row.id) db.transfers ≡ false
    → find (has_id row.id) (post row db).transfers ≡ some row
find-posted row db fresh =
    find-append_none (has_id row.id) db.transfers (row ∷ [])
      (find-none_of_exists (has_id row.id) db.transfers fresh)
    ∙ ground (arith, eq_refl row.id)

module _ (row : TransferRow) (db : Database) (positive : pos 0 <ℤ row.amount) where
  entry_checks-debit :
      has_account row.payer_account_id db ≡ true
      → entry_checks (debit_of row) (recorded row db) ≡ true
  unfolding entry_checks neg
  entry_checks-debit h = ground (arith, exists-recorded row db)

  pub put_entry-debit :
      has_account row.payer_account_id db ≡ true
      → put_entry (debit_of row) (recorded row db) ≡ (
        ok tt,
        record (recorded row db) { ledger_entries = db.ledger_entries ++ debit_of row ∷ [] },
      )
  unfolding put_entry
  put_entry-debit h = rw (entry_checks-debit h)

  -- `put_transfer` records a row whose id is free and whose accounts are there.
  pub put_transfer-cases :
      (put_transfer row db ≡ (err database, db))
      ⊎ ((put_transfer row db ≡ (ok tt, recorded row db))
          × (exists (has_id row.id) db.transfers ≡ false)
          × (has_account row.payer_account_id db ≡ true)
          × (has_account row.payee_account_id db ≡ true))
  unfolding put_transfer transfer_keys
  put_transfer-cases = ground arith

  pub put_entry-credit :
      (es : List EntryRow)
      → has_account row.payee_account_id db ≡ true
      → put_entry (credit_of row) (record (recorded row db) { ledger_entries = es })
        ≡ (ok tt, record (recorded row db) { ledger_entries = es ++ credit_of row ∷ [] })
  unfolding put_entry entry_checks
  put_entry-credit es h = ground (arith, exists-recorded row db)

-- `entries` cannot throw on a safe amount.
entries-safe :
    (t : Transfer)
    → IsSafe t.amount.cents
    → entries t
      ≡ ok (
          record {
            transfer_id = t.id;
            account_id = t.payer_account_id;
            amount = record { cents = neg t.amount.cents };
          }
          ∷ record { transfer_id = t.id; account_id = t.payee_account_id; amount = t.amount }
          ∷ [])
unfolding entries
entries-safe t h = rw (negated-safe t.amount h)

module _ (t : Transfer) (key : String) (now : ℕ) (db : Database) where
  abbrev row : TransferRow
  row = row_of t key now

  -- Computing the entries of a transfer and appending them books its journal.
  pub append-entries :
      pos 0 <ℤ t.amount.cents
      → IsSafe t.amount.cents
      → has_account t.payer_account_id db ≡ true
      → has_account t.payee_account_id db ≡ true
      → (raise (entries t) >>= append now) (recorded row db) ≡ (ok tt, post row db)
  unfolding append
  append-entries positive safe payer payee = ground (
    arith,
    entries-safe t safe,
    put_entry-debit row db positive payer,
    put_entry-credit row db positive (db.ledger_entries ++ debit_of row ∷ []) payee,
    append_assoc db.ledger_entries (debit_of row ∷ []) (credit_of row ∷ []),
  )
