-- ===== src/Hub/Invariant/Positions.antt =====
-- The reserve of a bank is what its settlements come to: what it received, less what it paid.
pub mod Update
pub mod Operations
use distributed_payment_ledg.Prelude.{
  ℕ, String, ◌≡◌, refl, ◌∙◌, Bool, true, false, Option, none, some, List, [], ◌∷◌, ◌++◌, arith,
  ◌==◌, text_Eq, find, if◌then◌else◌,
}
use distributed_payment_ledg.Prelude.Int.{ℤ, pos, neg, ◌+ℤ◌}
use distributed_payment_ledg.Hub.Database.{Database, Status, SettlementRecord, has_id}
use distributed_payment_ledg.Hub.Ledger.{reserve_of}

-- What a settlement moves to the reserve of a bank.
abbrev pub net : String → SettlementRecord → ℤ
net bank row =
    (if row.payer_bank_id == bank then neg row.amount_cents else pos 0)
    +ℤ (if row.payee_bank_id == bank then row.amount_cents else pos 0)

-- A settlement that is REVERSED or REJECTED counts for nothing.
abbrev pub share : String → SettlementRecord → ℤ
share bank row = elim row.status [
  | Status.pending ↦ net bank row
  | Status.confirmed ↦ net bank row
  | Status.reversed ↦ pos 0
  | Status.rejected ↦ pos 0
]

abbrev pub position : String → List SettlementRecord → ℤ
position bank [] = pos 0
position bank (row ∷ rows) = share bank row +ℤ position bank rows

abbrev pub IsDistinct : List SettlementRecord → Type 0
IsDistinct [] = Unit
IsDistinct (row ∷ rows) = (find (has_id row.id) rows ≡ none) × IsDistinct rows

-- Ids are distinct, and the reserve of every bank is its position.
pub record IsSettled (db : Database) : Type 0 where
  pub distinct : IsDistinct db.settlements
  pub settled : (bank : String) → reserve_of bank db.ledger_entries ≡ position bank db.settlements
