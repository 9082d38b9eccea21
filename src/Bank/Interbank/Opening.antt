-- ===== src/Bank/Interbank/Opening.antt =====
-- The transaction that opens a transfer to another bank: the debit, the companion row and the event
-- are written together, or none of them is.
use distributed_payment_ledg.Prelude.{
  ℕ, String, ◌≡◌, ◌≢◌, inl, inr, true, false, Option, none, some, [], ◌∷◌, ◌++◌, arith, text_Eq,
  exists, find, Option-cases, Bool-cases,
}
use distributed_payment_ledg.Prelude.Int.{◌≤ℤ◌}
use distributed_payment_ledg.Exec.{Result, ok, err, transaction}
use distributed_payment_ledg.Money.{IsSafe}
use distributed_payment_ledg.Bank.Domain.{
  Error, Transfer, database, domain, account_not_found, not_configured,
}
use distributed_payment_ledg.Bank.Database.{
  Database, InterbankTransferRecord, has_account, has_key, is_for,
}
use distributed_payment_ledg.Bank.Ledger.{sum_of}
use distributed_payment_ledg.Bank.Posting.{row_of, recorded, post, IsPostable}
use distributed_payment_ledg.Bank.Transfers.{insert, settle_payer}
use distributed_payment_ledg.Bank.Transfers.Insertion.{
  record_of, Insertion, insert-Insertion, Settlement, settle_payer-Settlement,
}
use distributed_payment_ledg.Bank.Interbank.{
  InterbankTransferParams, InterbankTransferResult, Config, new_row, row_checks, insert_row,
  with_request, accompany, open_transfer,
}

-- The companion row of a transfer, and the database with the row and the event.
abbrev pub companion : Transfer → InterbankTransferParams → ℕ → InterbankTransferRecord
companion t params now = new_row t.id params.payee_bank_id params.payee_account_ref now

abbrev pub accompanied : Transfer → InterbankTransferParams → ℕ → String → Database → Database
accompanied t params now bank_id db =
    with_request t params bank_id
      (record db { interbank_transfers = db.interbank_transfers ++ companion t params now ∷ [] })

abbrev pub result_of : Transfer → InterbankTransferParams → ℕ → InterbankTransferResult
result_of t params now = record { transfer = record_of t now; interbank = companion t params now }

row_checks-fresh :
    (row : InterbankTransferRecord) (db : Database)
    → row_checks row db ≡ true
    → exists (is_for row.transfer_id) db.interbank_transfers ≡ false
unfolding row_checks
row_checks-fresh row db h = ground arith

module _ (key : String) (t : Transfer) (params : InterbankTransferParams) (now : ℕ)
    (config : Config) (db : Database) where
  -- What is granted of an opening that commits: the bank's id is configured, and no companion row
  -- had the transfer's id.
  pub data Opening (out : Result Error (Option InterbankTransferResult) × Database) : Type 0 where
    failed : (e : Error) → out ≡ (err e, db) → Opening out
    lost : out ≡ (ok none, db) → find (has_key key) db.transfers ≢ none → Opening out
    opened :
        (bank_id : String)
        → config.bank_id ≡ some bank_id
        → exists (is_for t.id) db.interbank_transfers ≡ false
        → IsPostable (row_of t key now) db
        → t.amount.cents ≤ℤ sum_of t.payer_account_id db.ledger_entries
        → out ≡ (
          ok (some (result_of t params now)),
          accompanied t params now bank_id (post (row_of t key now) db),
        )
        → Opening out

  abbrev outcome : Result Error (Option InterbankTransferResult) × Database
  outcome = transaction (open_transfer t key params now config) db

  module _ (safe : IsSafe t.amount.cents) where
    after_settlement :
        has_account t.payer_account_id db ≡ true
        → insert t key now db ≡ (ok (some (record_of t now)), recorded (row_of t key now) db)
        → IsPostable (row_of t key now) db
        → t.amount.cents ≤ℤ sum_of t.payer_account_id db.ledger_entries
        → settle_payer t now (recorded (row_of t key now) db) ≡ (ok tt, post (row_of t key now) db)
        → Opening outcome
    unfolding open_transfer accompany insert_row
    after_settlement found inserted p covered settled =
        elim (Bool-cases (row_checks (companion t params now) (post (row_of t key now) db))) [
          | inr refused ↦ failed database (ground arith)
          | inl checked ↦ elim (Option-cases config.bank_id) [
            | inl unset ↦ failed (not_configured "BANK_ID") (ground arith)
            | inr (bank_id, set) ↦
                opened bank_id set (row_checks-fresh _ _ checked) p covered (ground arith)
          ]
        ]

    after_lock :
        has_account t.payer_account_id db ≡ true
        → Insertion t key now db (insert t key now db)
        → Opening outcome
    unfolding open_transfer
    after_lock found (Insertion.refused h) = failed database (ground arith)
    after_lock found (Insertion.taken row e h) = lost (ground arith) (λ no_row. cc)
    after_lock found (Insertion.inserted p h) = go (settle_payer-Settlement t key now db safe p)
      where
        go :
            Settlement t key now db (settle_payer t now (recorded (row_of t key now) db))
            → Opening outcome
        go (Settlement.refused e after k) = failed e (ground arith)
        go (Settlement.settled covered k) = after_settlement found h p covered k

    -- The transaction fails and changes nothing, loses the key and changes nothing, or writes the
    -- transfer, its two entries, its companion row and its event.
    pub open_transfer-Opening : Opening outcome
    unfolding open_transfer
    open_transfer-Opening = elim (Bool-cases (has_account t.payer_account_id db)) [
      | inl found ↦ after_lock found (insert-Insertion t key now db safe)
      | inr missing ↦ failed (domain (account_not_found t.payer_account_id)) (ground arith)
    ]
