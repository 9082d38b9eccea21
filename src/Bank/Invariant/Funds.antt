-- ===== src/Bank/Invariant/Funds.antt =====
-- No account goes below zero, but the two that stand for money outside the bank.
use distributed_payment_ledg.Prelude.{
  String, ◌≡◌, ◌≢◌, ◌∙◌, ◌⊎◌, inl, inr, List, [], ◌∷◌, ◌++◌, arith, ◌==◌, text_Eq, eq_iff, eq_refl,
  Bool-cases,
}
use distributed_payment_ledg.Prelude.Int.{
  pos, ◌+ℤ◌, neg, ◌≤ℤ◌, zero-+ℤ, +ℤ-zero, +ℤ_assoc, int_laws,
}
use distributed_payment_ledg.Bank.Domain.{suspense_account_id}
use distributed_payment_ledg.Bank.Database.{TransferRow, EntryRow, Database}
use distributed_payment_ledg.Bank.Ledger.{sum_of}
use distributed_payment_ledg.Bank.Accounts.{dev_treasury_account_id}
use distributed_payment_ledg.Bank.Posting.{journal, post, IsPostable}
use distributed_payment_ledg.Bank.Step.{Step, Reach, here, next, IsCovered}

pub sum_of-append :
    (a : String) (xs ys : List EntryRow) → sum_of a (xs ++ ys) ≡ sum_of a xs +ℤ sum_of a ys
sum_of-append a [] ys = ground (arith, zero-+ℤ (sum_of a ys))
sum_of-append a (x ∷ xs) ys =
    ground (arith, sum_of-append a xs ys, +ℤ_assoc x.amount (sum_of a xs) (sum_of a ys))

module _ (row : TransferRow) (db : Database)
    (distinct : row.payer_account_id ≢ row.payee_account_id) where
  -- A booking takes its amount from the payer,
  pub sum_of-post_payer :
      sum_of row.payer_account_id (post row db).ledger_entries
      ≡ sum_of row.payer_account_id db.ledger_entries +ℤ neg row.amount
  sum_of-post_payer = ground (
    arith,
    sum_of-append row.payer_account_id db.ledger_entries (journal row),
    eq_refl row.payer_account_id,
    eq_iff row.payee_account_id row.payer_account_id,
    +ℤ-zero (neg row.amount),
  )

  -- gives it to the payee,
  pub sum_of-post_payee :
      sum_of row.payee_account_id (post row db).ledger_entries
      ≡ sum_of row.payee_account_id db.ledger_entries +ℤ row.amount
  sum_of-post_payee = ground (
    arith,
    sum_of-append row.payee_account_id db.ledger_entries (journal row),
    eq_refl row.payee_account_id,
    eq_iff row.payer_account_id row.payee_account_id,
    +ℤ-zero row.amount,
  )

  -- and touches no other account.
  pub sum_of-post_other :
      (a : String)
      → a ≢ row.payer_account_id
      → a ≢ row.payee_account_id
      → sum_of a (post row db).ledger_entries ≡ sum_of a db.ledger_entries
  sum_of-post_other a np nq = ground (
    arith,
    sum_of-append a db.ledger_entries (journal row),
    eq_iff row.payer_account_id a,
    eq_iff row.payee_account_id a,
    +ℤ-zero (sum_of a db.ledger_entries),
  )

-- No customer's account is overdrawn. The suspense account and the treasury are no customers.
abbrev pub IsFunded : Database → Type 0
IsFunded db =
    (a : String)
    → a ≢ suspense_account_id
    → a ≢ dev_treasury_account_id
    → pos 0 ≤ℤ sum_of a db.ledger_entries

pub String-cases : (a b : String) → (a ≡ b) ⊎ (a ≢ b)
String-cases a b = elim (Bool-cases (a == b)) [
  | inl same ↦ inl ((eq_iff a b).0 same)
  | inr differs ↦ inr (λ e. ground (arith, (eq_iff a b).1 e))
]

module _ (row : TransferRow) (db : Database) (p : IsPostable row db) where
  -- A booking overdraws at most its payer.
  pub post_funds :
      (a : String)
      → a ≢ row.payer_account_id
      → pos 0 ≤ℤ sum_of a db.ledger_entries
      → pos 0 ≤ℤ sum_of a (post row db).ledger_entries
  post_funds a not_payer h = elim (String-cases a row.payee_account_id) [
    | inr other ↦ rw (sum_of-post_other row db p.distinct a not_payer other) h
    | inl payee ↦
        rw (payee, sum_of-post_payee row db p.distinct)
          (omega (int_laws, p.positive, rw payee at h))
  ]

  pub post_funds_payer :
      IsCovered row db → pos 0 ≤ℤ sum_of row.payer_account_id (post row db).ledger_entries
  post_funds_payer covered = rw (sum_of-post_payer row db p.distinct) (omega (int_laws, covered))

  pub post-IsFunded :
      (IsCovered row db
        ⊎ ((row.payer_account_id ≡ suspense_account_id)
            ⊎ (row.payer_account_id ≡ dev_treasury_account_id)))
      → IsFunded db
      → IsFunded (post row db)
  post-IsFunded why h a not_suspense not_treasury = elim (String-cases a row.payer_account_id) [
    | inr not_payer ↦ post_funds a not_payer (h a not_suspense not_treasury)
    | inl payer ↦ elim why [
      | inl covered ↦ rw payer (post_funds_payer covered)
      | inr (inl suspense) ↦ absurd (not_suspense (payer ∙ suspense))
      | inr (inr treasury) ↦ absurd (not_treasury (payer ∙ treasury))
    ]
  ]

Step-IsFunded : {a b : Database} → Step a b → IsFunded a → IsFunded b
Step-IsFunded (Step.account_opened a db free) h = h
Step-IsFunded (Step.transferred row db p covered) h = post-IsFunded row db p (inl covered) h
Step-IsFunded (Step.seeded row db p treasury) h = post-IsFunded row db p (inr (inr treasury)) h
Step-IsFunded (Step.requested row ref request db p covered q fresh) h =
    post-IsFunded row db p (inl covered) h
Step-IsFunded (Step.confirmed id now db) h = h
Step-IsFunded (Step.refunded original id row now db e p refund) h =
    post-IsFunded row db p (inr (inl refund.from_suspense)) h
Step-IsFunded (Step.closed id earlier now db e) h = h
Step-IsFunded (Step.published id now db) h = h

-- If no customer's account is overdrawn, none is after any committed transactions.
pub Reach-IsFunded : {a b : Database} → Reach a b → IsFunded a → IsFunded b
Reach-IsFunded here h = h
Reach-IsFunded (next r s) h = Step-IsFunded s (Reach-IsFunded r h)
