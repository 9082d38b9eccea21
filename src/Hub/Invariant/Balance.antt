-- ===== src/Hub/Invariant/Balance.antt =====
-- Money is neither made nor lost among the reserves of the banks.
use mathlib.Core.List.{[], ◌∷◌, ◌++◌, List}
use distributed_payment_ledg.Prelude.{◌≡◌, sym, ◌∙◌}
use distributed_payment_ledg.Prelude.Int.{ℤ, pos, ◌+ℤ◌, neg, int_laws, zero-+ℤ, +ℤ_assoc}
use distributed_payment_ledg.Hub.Database.{Database, ReserveRow}
use distributed_payment_ledg.Hub.Settlements.Insertion.{moves}
use distributed_payment_ledg.Hub.Step.{Step, Reach, here, next}
use distributed_payment_ledg.Hub.Settlements.Requests.{accepted_row}

-- The sum of all reserves, which counts what every bank holds.
abbrev pub total : List ReserveRow → ℤ
total [] = pos 0
total (e ∷ es) = e.amount +ℤ total es

total-append : (xs ys : List ReserveRow) → total (xs ++ ys) ≡ total xs +ℤ total ys
total-append [] ys = sym (zero-+ℤ (total ys))
total-append (x ∷ xs) ys = rw (total-append xs ys) (sym (+ℤ_assoc x.amount (total xs) (total ys)))

cancel : (a b : ℤ) → a +ℤ (neg b +ℤ (b +ℤ pos 0)) ≡ a
cancel a b = omega int_laws

cancel_back : (a b : ℤ) → a +ℤ (b +ℤ (neg b +ℤ pos 0)) ≡ a
cancel_back a b = omega int_laws

abbrev pub IsBalanced : Database → Type 0
IsBalanced db = total db.ledger_entries ≡ pos 0

Step-IsBalanced : {a b : Database} → Step a b → IsBalanced a → IsBalanced b
Step-IsBalanced (Step.registered bank db free) h = h
Step-IsBalanced (Step.rejected event now amount db p) h = h
Step-IsBalanced (Step.accepted event now amount db e safe p) h =
    total-append db.ledger_entries (moves (accepted_row event now amount) (neg amount) amount now)
    ∙ cancel (total db.ledger_entries) amount
    ∙ h
Step-IsBalanced (Step.confirmed row event now db later) h = h
Step-IsBalanced (Step.reversed row event now db later safe) h =
    total-append db.ledger_entries (moves row row.amount_cents (neg row.amount_cents) now)
    ∙ cancel_back (total db.ledger_entries) row.amount_cents
    ∙ h
Step-IsBalanced (Step.published id now db) h = h

-- If the reserves of all banks sum to 0, they do so after any committed transactions, replies that
-- race each other included.
pub Reach-IsBalanced : {a b : Database} → Reach a b → IsBalanced a → IsBalanced b
Reach-IsBalanced here h = h
Reach-IsBalanced (next r s) h = Step-IsBalanced s (Reach-IsBalanced r h)
