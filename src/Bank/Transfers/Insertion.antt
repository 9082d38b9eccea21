-- ===== src/Bank/Transfers/Insertion.antt =====
-- The outcomes of the two steps that every booking shares: inserting the row of a transfer, and
-- checking the payer's balance before the entries are appended.
use distributed_payment_ledg.Prelude.{
  ℕ, String, ◌≡◌, ◌≢◌, inl, inr, true, Option, none, some, arith, text_Eq, eq_iff, find,
  Option-cases, Bool-cases,
}
use distributed_payment_ledg.Prelude.Int.{pos, ◌<ℤ◌, ◌≤ℤ◌}
use distributed_payment_ledg.Exec.{Result, ok, err}
use distributed_payment_ledg.Money.{Money, IsSafe, less_than}
use distributed_payment_ledg.Money.Laws.{from_cents-safe}
use distributed_payment_ledg.Bank.Domain.{
  Error, Transfer, database, domain, insufficient_funds, assert_payer_can_afford,
}
use distributed_payment_ledg.Bank.Database.{TransferRow, Database, has_key, transfer_checks}
use distributed_payment_ledg.Bank.Ledger.{sum_of}
use distributed_payment_ledg.Bank.Ledger.Balance.{balance_of-cases}
use distributed_payment_ledg.Bank.Posting.{row_of, recorded, post, IsPostable}
use distributed_payment_ledg.Bank.Posting.Book.{append-entries, put_transfer-cases}
use distributed_payment_ledg.Bank.Transfers.{TransferRecord, to_record, insert, settle_payer}

-- The record that `RETURNING` gives for a new row.
abbrev pub record_of : Transfer → ℕ → TransferRecord
record_of t now = record {
  id = t.id;
  payer_account_id = t.payer_account_id;
  payee_account_id = t.payee_account_id;
  amount = t.amount;
  created_at = now;
}

pub to_record-row_of :
    (t : Transfer) (key : String) (now : ℕ)
    → IsSafe t.amount.cents
    → to_record (row_of t key now) ≡ ok (record_of t now)
unfolding to_record
to_record-row_of t key now safe = ground (arith, from_cents-safe t.amount.cents safe)

-- The checks of the table grant a positive amount and two different accounts.
pub transfer_checks-holds :
    (row : TransferRow)
    → transfer_checks row ≡ true
    → (pos 0 <ℤ row.amount) × (row.payer_account_id ≢ row.payee_account_id)
unfolding transfer_checks
transfer_checks-holds row h =
    (ground arith, λ e. ground (arith, (eq_iff row.payer_account_id row.payee_account_id).1 e))

module _ (t : Transfer) (key : String) (now : ℕ) (db : Database) where
  -- How `insert` can end.
  pub data Insertion (out : Result Error (Option TransferRecord) × Database) : Type 0 where
    refused : out ≡ (err database, db) → Insertion out
    taken :
        (row : TransferRow)
        → find (has_key key) db.transfers ≡ some row
        → out ≡ (ok none, db)
        → Insertion out
    inserted :
        IsPostable (row_of t key now) db
        → out ≡ (ok (some (record_of t now)), recorded (row_of t key now) db)
        → Insertion out

  insert_checked :
      IsSafe t.amount.cents
      → transfer_checks (row_of t key now) ≡ true
      → Insertion (insert t key now db)
  unfolding insert
  insert_checked safe checks = elim (Option-cases (find (has_key key) db.transfers)) [
    | inr (row, e) ↦ taken row e (ground arith)
    | inl free ↦
        elim (put_transfer-cases (row_of t key now) db (transfer_checks-holds _ checks).0) [
          | inl no_keys ↦ refused (ground arith)
          | inr (put, fresh, payer, payee) ↦
              inserted
                (record {
                  positive = (transfer_checks-holds _ checks).0;
                  distinct = (transfer_checks-holds _ checks).1;
                  fresh_key = free;
                  fresh_id = fresh;
                  has_payer = payer;
                  has_payee = payee;
                })
                (ground (arith, to_record-row_of t key now safe))
        ]
  ]

  -- `insert` refuses the row, finds the key taken, or records the row where all its keys hold.
  pub insert-Insertion : IsSafe t.amount.cents → Insertion (insert t key now db)
  unfolding insert
  insert-Insertion safe = elim (Bool-cases (transfer_checks (row_of t key now))) [
    | inl checks ↦ insert_checked safe checks
    | inr fails ↦ refused (rw fails)
  ]

  -- How the payer's part can end, on the database that holds the new row.
  pub data Settlement (out : Result Error (Unit {0}) × Database) : Type 0 where
    refused : (e : Error) (after : Database) → out ≡ (err e, after) → Settlement out
    settled :
        t.amount.cents ≤ℤ sum_of t.payer_account_id db.ledger_entries
        → out ≡ (ok tt, post (row_of t key now) db)
        → Settlement out

  -- The entries are appended exactly if the payer's balance covers the amount.
  pub settle_payer-Settlement :
      IsSafe t.amount.cents
      → IsPostable (row_of t key now) db
      → Settlement (settle_payer t now (recorded (row_of t key now) db))
  unfolding settle_payer assert_payer_can_afford
  settle_payer-Settlement safe p =
      let booked = append-entries t key now db p.positive safe p.has_payer p.has_payee in
      let balance : Money = record { cents = sum_of t.payer_account_id db.ledger_entries } in
      elim (balance_of-cases t.payer_account_id (recorded (row_of t key now) db)) [
        | inr (e, h) ↦ refused e (recorded (row_of t key now) db) (ground arith)
        | inl h ↦ elim (Bool-cases (less_than balance t.amount)) [
          | inl short ↦
              refused (domain (insufficient_funds t.payer_account_id))
                (recorded (row_of t key now) db) (ground arith)
          | inr enough ↦ settled (ground arith) (ground arith)
        ]
      ]
