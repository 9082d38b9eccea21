-- ===== src/Bank/Step/Refinement/Accounts.antt =====
-- Opening and seeding accounts refine the ledger.
use distributed_payment_ledg.Prelude.{ℕ, String, refl, subst, inl, inr, arith, text_Eq, Bool-cases}
use distributed_payment_ledg.Exec.{Result}
use distributed_payment_ledg.Money.{Money}
use distributed_payment_ledg.Bank.Domain.{Error}
use distributed_payment_ledg.Bank.Database.{Database, has_account, length_within}
use distributed_payment_ledg.Bank.Accounts.{create_account, seed_row, dev_seed}
use distributed_payment_ledg.Bank.Accounts.Seeding.{
  Seeding, failed, seeded, seed-Seeding, dev_seed-cases,
}
use distributed_payment_ledg.Bank.Step.{Reach, here, Step, one}

-- Opening an account adds one row, or nothing where the database refuses it.
pub create_account-Reach :
    (owner_name id : String) (now : ℕ) (db : Database)
    → Reach db (create_account owner_name id now db).1
unfolding create_account
create_account-Reach owner_name id now db = elim (Bool-cases (length_within 120 owner_name)) [
  | inr bad ↦ subst (Reach db) (ground arith) here
  | inl good ↦ elim (Bool-cases (has_account id db)) [
    | inl taken ↦ subst (Reach db) (ground arith) here
    | inr free ↦ subst (Reach db) (ground arith) (
        one (
          Step.account_opened (record { id = id; owner_name = owner_name; created_at = now }) db
            free))
  ]
]

module _ (account : String) (amount : Money) (uuid : String) (now : ℕ) (db : Database) where
  Seeding-Reach :
      {out : Result Error (Unit {0}) × Database}
      → Seeding account amount uuid now db out
      → Reach db out.1
  Seeding-Reach (failed e h) = rw h here
  Seeding-Reach (seeded p h) = rw h (one (Step.seeded (seed_row account amount uuid now) db p refl))

  -- Seeding an account takes one step of the ledger, or none.
  pub dev_seed-Reach : Reach db (dev_seed account amount uuid now db).1
  dev_seed-Reach = elim (dev_seed-cases account amount uuid now db) [
    | inl same ↦ rw same here
    | inr moved ↦ rw moved (Seeding-Reach (seed-Seeding account amount uuid now db))
  ]
