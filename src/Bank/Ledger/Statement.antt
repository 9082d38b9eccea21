-- ===== src/Bank/Ledger/Statement.antt =====
-- A statement and a balance tell the same.
use mathlib.Core.List.{reverse, reverse_aux}
use distributed_payment_ledg.Prelude.{
  ℕ, zero, suc, String, ◌+◌, ◌≤◌, ◌≡◌, refl, sym, ap, ◌∙◌, inl, inr, List, [], ◌∷◌, arith, text_Eq,
  length, take, select,
}
use distributed_payment_ledg.Prelude.Int.{ℤ, pos, ◌+ℤ◌, int_laws, +ℤ-zero, zero-+ℤ}
use distributed_payment_ledg.Exec.{Result, ok, err, Result-cases}
use distributed_payment_ledg.Money.{Money, integer, from_cents}
use distributed_payment_ledg.Money.Laws.{from_cents-ok}
use distributed_payment_ledg.Bank.Database.{EntryRow, Database, raise}
use distributed_payment_ledg.Bank.Domain.{DomainError}
use distributed_payment_ledg.Bank.Ledger.Balance.{balance_of-cases}
use distributed_payment_ledg.Bank.Ledger.{
  StatementLine, to_line, to_lines, statement_of, balance_of, sum_of, of_account,
}

-- The sum of the amounts of a statement.
abbrev pub sum_of_lines : List StatementLine → ℤ
sum_of_lines [] = pos 0
sum_of_lines (line ∷ lines) = line.amount.cents +ℤ sum_of_lines lines

abbrev sum_of_rows : List EntryRow → ℤ
sum_of_rows [] = pos 0
sum_of_rows (row ∷ rows) = row.amount +ℤ sum_of_rows rows

turned : (a b c : ℤ) → b +ℤ (a +ℤ c) ≡ (a +ℤ b) +ℤ c
turned a b c = omega int_laws

sum-reverse_aux :
    (rows done : List EntryRow)
    → sum_of_rows (reverse_aux rows done) ≡ sum_of_rows rows +ℤ sum_of_rows done
sum-reverse_aux [] done = sym (zero-+ℤ (sum_of_rows done))
sum-reverse_aux (row ∷ rows) done =
    sum-reverse_aux rows (row ∷ done) ∙ turned row.amount (sum_of_rows rows) (sum_of_rows done)

length-reverse_aux :
    (rows done : List EntryRow) → length (reverse_aux rows done) ≡ length rows + length done
length-reverse_aux [] done = omega arith
length-reverse_aux (row ∷ rows) done = omega (arith, length-reverse_aux rows (row ∷ done))

take_all : (n : ℕ) (rows : List EntryRow) → length rows ≤ n → take n rows ≡ rows
take_all zero [] h = refl
take_all zero (row ∷ rows) h = absurd (omega arith)
take_all (suc n) [] h = refl
take_all (suc n) (row ∷ rows) h = ap (λ rs. row ∷ rs) (take_all n rows (omega arith))

sum_of-select :
    (account : String) (rows : List EntryRow)
    → sum_of account rows ≡ sum_of_rows (select (of_account account) rows)
sum_of-select account [] = refl
sum_of-select account (row ∷ rows) = ground (arith, sum_of-select account rows)

to_line-amount :
    (row : EntryRow) (line : StatementLine) → to_line row ≡ ok line → line.amount.cents ≡ row.amount
to_line-amount row line h = elim (Result-cases (from_cents (integer row.amount))) [
  | inl (m, e) ↦ ground (arith, from_cents-ok (integer row.amount) m e)
  | inr (x, e) ↦ ground arith
]

to_lines-sum :
    (rows : List EntryRow) (lines : List StatementLine)
    → to_lines rows ≡ ok lines
    → sum_of_lines lines ≡ sum_of_rows rows
unfolding to_lines
to_lines-sum [] lines h = ground arith
to_lines-sum (row ∷ rows) lines h = elim (Result-cases (to_line row)) [
  | inr (x, e) ↦ ground arith
  | inl (line, e) ↦ elim (Result-cases (to_lines rows)) [
    | inr (x, k) ↦ ground arith
    | inl (rest, k) ↦
        let whole : lines ≡ line ∷ rest = ground arith in
        ap sum_of_lines whole
        ∙ ap (λ z. z +ℤ sum_of_lines rest) (to_line-amount row line e)
        ∙ ap (λ z. row.amount +ℤ z) (to_lines-sum rows rest k)
  ]
]

listed_lem :
    (r : Result DomainError (List StatementLine)) (lines : List StatementLine) (db : Database)
    → raise r db ≡ (ok lines, db)
    → r ≡ ok lines
listed_lem (ok ls) lines db h = ground arith
listed_lem (err e) lines db h = ground arith

held_lem :
    (account : String) (db : Database) (balance : Money)
    → balance_of account db ≡ (ok balance, db)
    → sum_of account db.ledger_entries ≡ balance.cents
held_lem account db balance h = elim (balance_of-cases account db) [
  | inl e ↦ ground arith
  | inr (x, e) ↦ ground arith
]

all_rows :
    (account : String) (limit : ℕ) (db : Database)
    → length (select (of_account account) db.ledger_entries) ≤ limit
    → take limit (reverse (select (of_account account) db.ledger_entries))
      ≡ reverse (select (of_account account) db.ledger_entries)
all_rows account limit db h =
    take_all limit (reverse (select (of_account account) db.ledger_entries))
      (omega (arith, length-reverse_aux (select (of_account account) db.ledger_entries) []))

-- If a statement may list all entries of an account, and both the statement and the balance are
-- returned, the amounts of the statement sum to the balance.
pub statement_of-balance_of :
    (account : String) (limit : ℕ) (db : Database) (lines : List StatementLine) (balance : Money)
    → length (select (of_account account) db.ledger_entries) ≤ limit
    → statement_of account limit db ≡ (ok lines, db)
    → balance_of account db ≡ (ok balance, db)
    → sum_of_lines lines ≡ balance.cents
unfolding statement_of
statement_of-balance_of account limit db lines balance fits stated held =
    let rows : List EntryRow = select (of_account account) db.ledger_entries in
    let listed : to_lines (take limit (reverse rows)) ≡ ok lines =
      listed_lem (to_lines (take limit (reverse rows))) lines db stated in
    to_lines-sum (reverse rows) lines (ap to_lines (sym (all_rows account limit db fits)) ∙ listed)
    ∙ sum-reverse_aux rows []
    ∙ +ℤ-zero (sum_of_rows rows)
    ∙ sym (sum_of-select account db.ledger_entries)
    ∙ held_lem account db balance held
