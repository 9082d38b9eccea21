-- ===== src/Bank/Invariant/Journal.antt =====
-- The ledger is the journal of the transfers: each transfer's debit and credit, in order, and
-- nothing else.
use distributed_payment_ledg.Prelude.{
  String, ◌≡◌, refl, sym, ap, ◌∙◌, List, [], ◌∷◌, ◌++◌, arith, ◌==◌, text_Eq, if◌then◌else◌,
}
use distributed_payment_ledg.Prelude.Int.{ℤ, pos, ◌+ℤ◌, neg, int_laws}
use distributed_payment_ledg.Bank.Database.{TransferRow, EntryRow, Database}
use distributed_payment_ledg.Bank.Posting.{journal, debit_of, credit_of, post}
use distributed_payment_ledg.Bank.Step.{Step, Reach, here, next}

abbrev pub journals : List TransferRow → List EntryRow
journals [] = []
journals (row ∷ rows) = debit_of row ∷ credit_of row ∷ journals rows

abbrev pub IsJournal : Database → Type 0
IsJournal db = db.ledger_entries ≡ journals db.transfers

journals-append : (xs ys : List TransferRow) → journals (xs ++ ys) ≡ journals xs ++ journals ys
journals-append [] ys = refl
journals-append (x ∷ xs) ys = ap (λ es. debit_of x ∷ credit_of x ∷ es) (journals-append xs ys)

pub post-IsJournal : (row : TransferRow) (db : Database) → IsJournal db → IsJournal (post row db)
post-IsJournal row db h =
    ap (λ es. es ++ journal row) h ∙ sym (journals-append db.transfers (row ∷ []))

Step-IsJournal : {a b : Database} → Step a b → IsJournal a → IsJournal b
Step-IsJournal (Step.account_opened a db free) h = h
Step-IsJournal (Step.transferred row db p covered) h = post-IsJournal row db h
Step-IsJournal (Step.seeded row db p treasury) h = post-IsJournal row db h
Step-IsJournal (Step.requested row ref request db p covered q fresh) h = post-IsJournal row db h
Step-IsJournal (Step.confirmed id now db) h = h
Step-IsJournal (Step.refunded original id row now db e p refund) h = post-IsJournal row db h
Step-IsJournal (Step.closed id earlier now db e) h = h
Step-IsJournal (Step.published id now db) h = h

-- If the ledger is the journal of the transfers, it stays so through any committed transactions.
pub Reach-IsJournal : {a b : Database} → Reach a b → IsJournal a → IsJournal b
Reach-IsJournal here h = h
Reach-IsJournal (next r s) h = Step-IsJournal s (Reach-IsJournal r h)

-- The sum of the entries of one transfer.
abbrev pub sum_of_transfer : String → List EntryRow → ℤ
sum_of_transfer id [] = pos 0
sum_of_transfer id (e ∷ es) =
    let rest = sum_of_transfer id es in if e.transfer_id == id then e.amount +ℤ rest else rest

cancel : (a b : ℤ) → neg a +ℤ (a +ℤ b) ≡ b
cancel a b = omega int_laws

sum_of_transfer-journals :
    (id : String) (rows : List TransferRow) → sum_of_transfer id (journals rows) ≡ pos 0
sum_of_transfer-journals id [] = refl
sum_of_transfer-journals id (row ∷ rows) = ground (
  arith,
  sum_of_transfer-journals id rows,
  cancel row.amount (sum_of_transfer id (journals rows)),
)

-- If the ledger is the journal of the transfers, then after any committed transactions, whatever
-- the id, the entries booked for it sum to zero.
pub double_entry :
    {a b : Database} (id : String)
    → Reach a b
    → IsJournal a
    → sum_of_transfer id b.ledger_entries ≡ pos 0
double_entry {b = b} id r h = rw (Reach-IsJournal r h) (sum_of_transfer-journals id b.transfers)
