-- ===== src/Bank/Database.antt =====
-- The tables of Bank A (migrations/*.sql), with the checks that every statement runs through. Rows
-- stand in the order of their ids, which is that of their insertion. Times are the database's
-- `now()`, one for a transaction. Ids are UUIDs in the spelling that the database returns.
use distributed_payment_ledg.Prelude.{
  ℕ, String, Bool, not, ◌&&◌, ◌||◌, List, [], ◌∷◌, ◌++◌, ◌==◌, text_Eq, leb, exists, count,
  if◌then◌else◌,
}
use distributed_payment_ledg.Prelude.Int.{ℤ, pos, ltb_ℤ}
use distributed_payment_ledg.Outbox
use distributed_payment_ledg.Exec.{Result, ok, err, Exec, lift, map_err}
use distributed_payment_ledg.Bank.Domain.{Account, DomainError, Error, domain, database}

pub record TransferRow : Type 0 where
  pub id : String
  pub idempotency_key : String
  pub payer_account_id : String
  pub payee_account_id : String
  pub amount : ℤ
  pub created_at : ℕ

pub record EntryRow : Type 0 where
  pub transfer_id : String
  pub account_id : String
  pub amount : ℤ
  pub created_at : ℕ

-- `InterbankTransferStatus`
pub data Status : Type 0 where
  debited confirmed compensated : Status

-- A row of `interbank_transfers`, and `InterbankTransferRecord`, which has the same fields.
pub record InterbankTransferRecord : Type 0 where
  pub transfer_id : String
  pub payee_bank_id : String
  pub payee_account_ref : String
  pub status : Status
  pub created_at : ℕ
  pub updated_at : ℕ

-- The payload of `settlement.requested`.
pub record SettlementRequest : Type 0 where
  pub settlement_id : String
  pub payer_bank_id : String
  pub payee_bank_id : String
  pub payee_account_ref : String
  pub amount_cents : ℤ

pub record Database : Type 0 where
  pub accounts : List Account
  pub transfers : List TransferRow
  pub ledger_entries : List EntryRow
  pub interbank_transfers : List InterbankTransferRecord
  pub outbox : Outbox.Table SettlementRequest

abbrev pub has_account : String → Database → Bool
has_account id db = exists (λ a. a.id == id) db.accounts

abbrev pub has_key : String → TransferRow → Bool
has_key key row = row.idempotency_key == key

abbrev pub has_id : String → TransferRow → Bool
has_id id row = row.id == id

abbrev pub is_for : String → InterbankTransferRecord → Bool
is_for id row = row.transfer_id == id

-- `length(t) BETWEEN 1 AND n`, in characters
abbrev pub length_within : ℕ → String → Bool
length_within n t = leb 1 (count t) && leb (count t) n

-- The CHECK constraints of `transfers`.
unfoldable pub transfer_checks : TransferRow → Bool
transfer_checks row =
    length_within 255 row.idempotency_key
    && ltb_ℤ (pos 0) row.amount
    && not (row.payer_account_id == row.payee_account_id)

-- The primary key and the foreign keys of `transfers`.
unfoldable pub transfer_keys : TransferRow → Database → Bool
transfer_keys row db =
    not (exists (has_id row.id) db.transfers)
    && has_account row.payer_account_id db
    && has_account row.payee_account_id db

-- The check and the foreign keys of `ledger_entries`.
unfoldable pub entry_checks : EntryRow → Database → Bool
entry_checks row db =
    (ltb_ℤ (pos 0) row.amount || ltb_ℤ row.amount (pos 0))
    && has_account row.account_id db
    && exists (has_id row.transfer_id) db.transfers

-- A method of the service over this database.
abbrev pub Action {ℓ} : Type ℓ → Type ℓ
Action A = Exec Error Database A

-- A domain error that is thrown where a value is computed.
abbrev pub raise {ℓ} : {A : Type ℓ} → Result DomainError A → Action A
raise r = lift (map_err domain r)

-- `if (!condition) throw error`
abbrev pub raise_unless : Bool → DomainError → Action (Unit {0})
raise_unless c e = raise (if c then ok tt else err e)

-- `INSERT INTO transfers`, where the row passes the checks and its idempotency key is not taken.
unfoldable pub put_transfer : TransferRow → Action (Unit {0})
unfolding transfer_keys
put_transfer row db =
    if transfer_keys row db
    then (ok tt, record db { transfers = db.transfers ++ row ∷ [] })
    else (err database, db)

-- `INSERT INTO ledger_entries`
unfoldable pub put_entry : EntryRow → Action (Unit {0})
unfolding entry_checks
put_entry row db =
    if entry_checks row db
    then (ok tt, record db { ledger_entries = db.ledger_entries ++ row ∷ [] })
    else (err database, db)
