-- ===== src/Bank/Transfers/Lookup.antt =====
-- What the lookups of a transfer return.
use distributed_payment_ledg.Prelude.{
  String, ◌≡◌, inl, inr, Option, none, some, arith, find, Option-cases,
}
use distributed_payment_ledg.Exec.{Result, ok, err, Result-cases}
use distributed_payment_ledg.Money.{IsSafe, integer, from_cents}
use distributed_payment_ledg.Money.Laws.{from_cents-ok}
use distributed_payment_ledg.Bank.Domain.{Error, domain}
use distributed_payment_ledg.Bank.Database.{TransferRow, Database, has_id, has_key}
use distributed_payment_ledg.Bank.Transfers.{
  TransferRecord, to_record, find_by_id, find_by_idempotency_key,
}

-- A record and the row that it was read from.
pub record IsRecordOf (row : TransferRow) (r : TransferRecord) : Type 0 where
  pub same_id : r.id ≡ row.id
  pub same_payer : r.payer_account_id ≡ row.payer_account_id
  pub same_payee : r.payee_account_id ≡ row.payee_account_id
  pub same_amount : r.amount.cents ≡ row.amount
  pub safe : IsSafe row.amount

pub to_record-IsRecordOf :
    (row : TransferRow) (r : TransferRecord) → to_record row ≡ ok r → IsRecordOf row r
unfolding to_record
to_record-IsRecordOf row r h = elim (Result-cases (from_cents (integer row.amount))) [
  | inl (m, e) ↦ ground (arith, from_cents-ok (integer row.amount) m)
  | inr (e, f) ↦ ground arith
]

-- How a lookup can end.
pub data Lookup (row : Option TransferRow) (db : Database)
    (out : Result Error (Option TransferRecord) × Database) : Type 0 where
  failed : (e : Error) → out ≡ (err e, db) → Lookup row db out
  missing : row ≡ none → out ≡ (ok none, db) → Lookup row db out
  found :
      (stored : TransferRow) (r : TransferRecord)
      → row ≡ some stored
      → to_record stored ≡ ok r
      → IsRecordOf stored r
      → out ≡ (ok (some r), db)
      → Lookup row db out

module _ (db : Database) where
  pub find_by_id-Lookup :
      (id : String) → Lookup (find (has_id id) db.transfers) db (find_by_id id db)
  unfolding find_by_id
  find_by_id-Lookup id = elim (Option-cases (find (has_id id) db.transfers)) [
    | inl no_row ↦ missing no_row (ground arith)
    | inr (row, e) ↦ elim (Result-cases (to_record row)) [
      | inl (r, h) ↦ found row r e h (to_record-IsRecordOf row r h) (ground arith)
      | inr (why, h) ↦ failed (domain why) (ground arith)
    ]
  ]

  pub find_by_idempotency_key-Lookup :
      (key : String) → Lookup (find (has_key key) db.transfers) db (find_by_idempotency_key key db)
  unfolding find_by_idempotency_key
  find_by_idempotency_key-Lookup key = elim (Option-cases (find (has_key key) db.transfers)) [
    | inl no_row ↦ missing no_row (ground arith)
    | inr (row, e) ↦ elim (Result-cases (to_record row)) [
      | inl (r, h) ↦ found row r e h (to_record-IsRecordOf row r h) (ground arith)
      | inr (why, h) ↦ failed (domain why) (ground arith)
    ]
  ]
