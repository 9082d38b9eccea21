-- ===== src/Bank/Step.antt =====
-- The abstract ledger: what one committed transaction may do to the tables of Bank A. Every method
-- is shown below to take no other step.
pub mod Refinement
use distributed_payment_ledg.Prelude.{
  ℕ, String, ◌≡◌, true, false, some, List, [], ◌∷◌, ◌++◌, find, exists,
}
use distributed_payment_ledg.Prelude.Int.{◌≤ℤ◌}
use distributed_payment_ledg.Outbox
use distributed_payment_ledg.Bank.Domain.{Account, suspense_account_id}
use distributed_payment_ledg.Bank.Database.{
  TransferRow, Database, Status, InterbankTransferRecord, SettlementRequest, has_account, has_id,
  has_key, is_for,
}
use distributed_payment_ledg.Bank.Ledger.{sum_of}
use distributed_payment_ledg.Bank.Accounts.{dev_treasury_account_id}
use distributed_payment_ledg.Bank.Posting.{post, IsPostable}
use distributed_payment_ledg.Bank.Interbank.{move_debited, settlement_requested_routing_key}
use distributed_payment_ledg.Bank.Reply.{compensation_key}

-- The payer holds what the row takes.
abbrev pub IsCovered : TransferRow → Database → Type 0
IsCovered row db = row.amount ≤ℤ sum_of row.payer_account_id db.ledger_entries

-- A companion row and an event that belong to a transfer.
pub record IsRequestFor (row : TransferRow) (ref : InterbankTransferRecord)
    (request : SettlementRequest) : Type 0 where
  pub to_suspense : row.payee_account_id ≡ suspense_account_id
  pub ref_id : ref.transfer_id ≡ row.id
  pub starts_debited : ref.status ≡ Status.debited
  pub request_id : request.settlement_id ≡ row.id
  pub request_amount : request.amount_cents ≡ row.amount
  pub request_payee_bank : request.payee_bank_id ≡ ref.payee_bank_id
  pub request_payee_ref : request.payee_account_ref ≡ ref.payee_account_ref

-- The database with a companion row and an event added.
abbrev pub with_companion :
    TransferRow → InterbankTransferRecord → SettlementRequest → Database → Database
with_companion row ref request db = record db {
  interbank_transfers = db.interbank_transfers ++ ref ∷ [];
  outbox =
      Outbox.insert row.id "settlement.requested" settlement_requested_routing_key request
        db.outbox;
}

-- A transfer that gives the money of an earlier one back.
pub record IsRefundOf (original : TransferRow) (id : String) (row : TransferRow) : Type 0 where
  pub from_suspense : row.payer_account_id ≡ suspense_account_id
  pub to_payer : row.payee_account_id ≡ original.payer_account_id
  pub same_amount : row.amount ≡ original.amount
  pub under_key : row.idempotency_key ≡ compensation_key id

pub data Step : Database → Database → Type 0 where
  account_opened :
      (a : Account) (db : Database)
      → has_account a.id db ≡ false
      → Step db (record db { accounts = db.accounts ++ a ∷ [] })
  transferred :
      (row : TransferRow) (db : Database)
      → IsPostable row db
      → IsCovered row db
      → Step db (post row db)
  seeded :
      (row : TransferRow) (db : Database)
      → IsPostable row db
      → row.payer_account_id ≡ dev_treasury_account_id
      → Step db (post row db)
  requested :
      (row : TransferRow) (ref : InterbankTransferRecord) (request : SettlementRequest)
      (db : Database)
      → IsPostable row db
      → IsCovered row db
      → IsRequestFor row ref request
      → exists (is_for row.id) db.interbank_transfers ≡ false
      → Step db (with_companion row ref request (post row db))
  confirmed :
      (id : String) (now : ℕ) (db : Database) → Step db (move_debited Status.confirmed now id db)
  refunded :
      (original : TransferRow) (id : String) (row : TransferRow) (now : ℕ) (db : Database)
      → find (has_id id) db.transfers ≡ some original
      → IsPostable row db
      → IsRefundOf original id row
      → Step db (move_debited Status.compensated now id (post row db))
  closed :
      (id : String) (earlier : TransferRow) (now : ℕ) (db : Database)
      → find (has_key (compensation_key id)) db.transfers ≡ some earlier
      → Step db (move_debited Status.compensated now id db)
  published :
      (id now : ℕ) (db : Database)
      → Step db (record db { outbox = Outbox.mark_published now id db.outbox })

-- Any number of steps.
pub data Reach (db : Database) : Database → Type 0 where
  here : Reach db db
  next : {mid after : Database} → Reach db mid → Step mid after → Reach db after

pub Reach-trans : {a b c : Database} → Reach a b → Reach b c → Reach a c
Reach-trans ab here = ab
Reach-trans ab (next bc s) = next (Reach-trans ab bc) s

abbrev pub one : {a b : Database} → Step a b → Reach a b
one s = next here s
