-- ===== src/Bank/Invariant/Suspense.antt =====
-- The suspense account (src/domain/suspense-account.ts) holds the money of the transfers to other
-- banks: of those that are under way or settled, not of those that were given back.
pub mod Update
pub mod Bookings
pub mod Operations
use distributed_payment_ledg.Prelude.{String, ◌≡◌, none, some, List, [], ◌∷◌, find}
use distributed_payment_ledg.Prelude.Int.{ℤ, pos, ◌+ℤ◌}
use distributed_payment_ledg.Bank.Domain.{suspense_account_id}
use distributed_payment_ledg.Bank.Database.{
  TransferRow, Database, Status, InterbankTransferRecord, has_id, is_for,
}
use distributed_payment_ledg.Bank.Ledger.{sum_of}

-- The amount of the transfer with an id.
abbrev pub amount_of : String → List TransferRow → ℤ
amount_of id transfers = elim (find (has_id id) transfers) [ some row ↦ row.amount | none ↦ pos 0 ]

-- A transfer that is COMPENSATED counts for nothing.
abbrev pub share : List TransferRow → InterbankTransferRecord → ℤ
share transfers ref = elim ref.status [
  | Status.debited ↦ amount_of ref.transfer_id transfers
  | Status.confirmed ↦ amount_of ref.transfer_id transfers
  | Status.compensated ↦ pos 0
]

abbrev pub held : List TransferRow → List InterbankTransferRecord → ℤ
held transfers [] = pos 0
held transfers (ref ∷ refs) = share transfers ref +ℤ held transfers refs

-- No two companion rows are for the same transfer, and each transfer is there.
abbrev pub AreCompanions : List TransferRow → List InterbankTransferRecord → Type 0
AreCompanions transfers [] = Unit
AreCompanions transfers (ref ∷ refs) =
    (find (is_for ref.transfer_id) refs ≡ none)
    × ((row : TransferRow) × (find (has_id ref.transfer_id) transfers ≡ some row))
    × AreCompanions transfers refs

pub record IsHeld (db : Database) : Type 0 where
  pub companions : AreCompanions db.transfers db.interbank_transfers
  pub balance :
      sum_of suspense_account_id db.ledger_entries ≡ held db.transfers db.interbank_transfers
