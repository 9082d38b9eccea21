-- ===== src/Bank/Transfers/Booking.antt =====
-- The transaction of `execute`: it books the transfer whole, or leaves the database as it was.
use distributed_payment_ledg.Prelude.{
  ℕ, String, ◌≡◌, refl, ◌≢◌, ◌⊎◌, inl, inr, false, Option, none, some, List, [], ◌∷◌, arith,
  text_Eq, find, Bool-cases,
}
use distributed_payment_ledg.Prelude.Int.{◌≤ℤ◌}
use distributed_payment_ledg.Prelude.Texts.{sort_pair}
use distributed_payment_ledg.Exec.{Result, ok, err, transaction}
use distributed_payment_ledg.Money.{IsSafe}
use distributed_payment_ledg.Bank.Domain.{Error, Transfer, database, domain, account_not_found}
use distributed_payment_ledg.Bank.Database.{Database, has_account, has_key}
use distributed_payment_ledg.Bank.Ledger.{sum_of}
use distributed_payment_ledg.Bank.Posting.{row_of, recorded, post, IsPostable}
use distributed_payment_ledg.Bank.Transfers.{
  TransferRecord, lock_all, lock_accounts, insert, settle_payer, book_transfer,
}
use distributed_payment_ledg.Bank.Transfers.Insertion.{
  record_of, Insertion, insert-Insertion, Settlement, settle_payer-Settlement,
}

-- Locking writes nothing, and succeeds or names an account that is missing.
lock_all-cases :
    (ids : List String) (db : Database)
    → (lock_all ids db ≡ (ok tt, db))
      ⊎ ((id : String) × (lock_all ids db ≡ (err (domain (account_not_found id)), db))
          × (has_account id db ≡ false))
unfolding lock_all
lock_all-cases [] db = inl refl
lock_all-cases (id ∷ ids) db = elim (Bool-cases (has_account id db)) [
  | inr missing ↦ inr (id, ground arith, missing)
  | inl found ↦ elim (lock_all-cases ids db) [
    | inl locked ↦ inl (ground arith)
    | inr (j, failed, missing) ↦ inr (j, ground arith, missing)
  ]
]

module _ (key : String) (t : Transfer) (now : ℕ) (db : Database) where
  -- How the transaction can end. A booking that commits had a balance that covered the amount.
  pub data Booking (out : Result Error (Option TransferRecord) × Database) : Type 0 where
    failed : (e : Error) → out ≡ (err e, db) → Booking out
    lost : out ≡ (ok none, db) → find (has_key key) db.transfers ≢ none → Booking out
    booked :
        IsPostable (row_of t key now) db
        → t.amount.cents ≤ℤ sum_of t.payer_account_id db.ledger_entries
        → out ≡ (ok (some (record_of t now)), post (row_of t key now) db)
        → Booking out

  abbrev outcome : Result Error (Option TransferRecord) × Database
  outcome = transaction (book_transfer t key now) db

  module _ (safe : IsSafe t.amount.cents) where
    after_insert :
        lock_accounts t db ≡ (ok tt, db)
        → Insertion t key now db (insert t key now db)
        → Booking outcome
    unfolding book_transfer
    after_insert locked (Insertion.refused h) = failed database (ground arith)
    after_insert locked (Insertion.taken row e h) = lost (ground arith) (λ no_row. cc)
    after_insert locked (Insertion.inserted p h) = go (settle_payer-Settlement t key now db safe p)
      where
        go :
            Settlement t key now db (settle_payer t now (recorded (row_of t key now) db))
            → Booking outcome
        go (Settlement.refused e after k) = failed e (ground arith)
        go (Settlement.settled covered k) = booked p covered (ground arith)

    -- The transaction fails and changes nothing, loses the key to another row and changes nothing, or
    -- records the transfer with both entries, with a balance that covered it.
    pub book_transfer-Booking : Booking outcome
    unfolding book_transfer lock_accounts
    book_transfer-Booking =
        elim (lock_all-cases (sort_pair t.payer_account_id t.payee_account_id) db) [
          | inl locked ↦ after_insert locked (insert-Insertion t key now db safe)
          | inr (id, h, missing) ↦ failed (domain (account_not_found id)) (ground arith)
        ]
