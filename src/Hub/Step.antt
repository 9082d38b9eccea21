-- ===== src/Hub/Step.antt =====
-- The abstract ledger of the Hub: what one committed transaction may do to its tables.
pub mod Refinement
use distributed_payment_ledg.Prelude.{ℕ, String, ◌≡◌, ◌≢◌, false, some, List, [], ◌∷◌, ◌++◌, find}
use distributed_payment_ledg.Prelude.Int.{ℤ}
use distributed_payment_ledg.Outbox
use distributed_payment_ledg.Money.{integer, IsSafe}
use distributed_payment_ledg.Hub.Domain.{Bank}
use distributed_payment_ledg.Hub.Database.{Database, SettlementRecord, Status, has_bank, has_id}
use distributed_payment_ledg.Hub.Banks.{add_bank}
use distributed_payment_ledg.Hub.Settlements.{
  SettlementRequestedEvent, SettlementReplyEvent, row_of, unknown_payee_bank, is_pending,
}
use distributed_payment_ledg.Hub.Settlements.Insertion.{IsInsertable}
use distributed_payment_ledg.Hub.Settlements.Requests.{rejected_state, accepted_row, accepted_state}
use distributed_payment_ledg.Hub.Settlements.Resolution.{confirmed_state, reversed_state}

-- How a settlement may develop: what it moves stays, and a final state stays.
pub record Develops (row row' : SettlementRecord) : Type 0 where
  pub same_id : row'.id ≡ row.id
  pub same_payer : row'.payer_bank_id ≡ row.payer_bank_id
  pub same_payee : row'.payee_bank_id ≡ row.payee_bank_id
  pub same_amount : row'.amount_cents ≡ row.amount_cents
  pub final : row.status ≢ Status.pending → row' ≡ row

-- The settlement is stored as a development of a row that was read earlier.
abbrev pub Later : String → SettlementRecord → Database → Type 0
Later id row db =
    (row' : SettlementRecord) × (find (has_id id) db.settlements ≡ some row') × Develops row row'

-- A reply acts on the row that it read, which other replies may have resolved since.
pub data Step : Database → Database → Type 0 where
  registered :
      (bank : Bank) (db : Database) → has_bank bank.id db ≡ false → Step db (add_bank bank db)
  rejected :
      (event : SettlementRequestedEvent) (now : ℕ) (amount : ℤ) (db : Database)
      → IsInsertable (row_of event amount Status.rejected (some unknown_payee_bank) now) db
      → Step db (rejected_state event now amount db)
  accepted :
      (event : SettlementRequestedEvent) (now : ℕ) (amount : ℤ) (db : Database)
      → event.amount_cents ≡ integer amount
      → IsSafe amount
      → IsInsertable (accepted_row event now amount) db
      → Step db (accepted_state event now amount db)
  confirmed :
      (row : SettlementRecord) (event : SettlementReplyEvent) (now : ℕ) (db : Database)
      → Later row.id row db
      → Step db (confirmed_state row event now db)
  reversed :
      (row : SettlementRecord) (event : SettlementReplyEvent) (now : ℕ) (db : Database)
      → Later row.id row db
      → IsSafe row.amount_cents
      → Step db (reversed_state row event now db)
  published :
      (id now : ℕ) (db : Database)
      → Step db (record db { outbox = Outbox.mark_published now id db.outbox })

-- The states that a sequence of steps reaches.
pub data Reach (a : Database) : Database → Type 0 where
  here : Reach a a
  next : {b c : Database} → Reach a b → Step b c → Reach a c

pub one : {a b : Database} → Step a b → Reach a b
one s = next here s

pub Reach-trans : {a b c : Database} → Reach a b → Reach b c → Reach a c
Reach-trans r here = r
Reach-trans r (next q s) = next (Reach-trans r q) s
