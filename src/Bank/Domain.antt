-- ===== src/Bank/Domain.antt =====
-- The domain of Bank A (src/domain): its errors, a transfer and the two entries that book it.
use distributed_payment_ledg.Prelude.{ℕ, String, not, List, [], ◌∷◌, ◌==◌, text_Eq, if◌then◌else◌}
use distributed_payment_ledg.Exec.{Result, ok, err}
use distributed_payment_ledg.Money.{
  Money, integer, InvalidAmountError, invalid, negated, is_positive, less_than,
}

pub data DomainError : Type 0 where
  invalid_amount : InvalidAmountError → DomainError
  self_transfer : DomainError
  insufficient_funds account_not_found transfer_not_found : String → DomainError
  idempotency_conflict : DomainError

-- What a method can throw: a domain error, a statement that the database refuses, or one of the
-- plain errors, each with the id, the key or the variable that its message names.
pub data Error : Type 0 where
  domain : DomainError → Error
  database fetch_failed : Error
  vanished no_interbank_transfer no_local_transfer not_configured : String → Error

-- src/domain/account.ts
pub record Account : Type 0 where
  pub id : String
  pub owner_name : String
  pub created_at : ℕ

pub record LedgerEntry : Type 0 where
  pub transfer_id : String
  pub account_id : String
  pub amount : Money

pub record Transfer : Type 0 where
  pub id : String
  pub payer_account_id : String
  pub payee_account_id : String
  pub amount : Money

abbrev pub suspense_account_id : String
suspense_account_id = "00000000-0000-0000-0000-000000000001"

-- `Transfer.create`
unfoldable pub create : String → String → String → Money → Result DomainError Transfer
create id payer payee amount =
    if not (is_positive amount)
    then err (invalid_amount (invalid (integer amount.cents)))
    else if payer == payee
    then err self_transfer
    else ok
        (record { id = id; payer_account_id = payer; payee_account_id = payee; amount = amount })

abbrev pub pair : Transfer → Result InvalidAmountError Money → Result DomainError (List LedgerEntry)
pair t (err e) = err (invalid_amount e)
pair t (ok debit) = ok (
    record { transfer_id = t.id; account_id = t.payer_account_id; amount = debit }
    ∷ record { transfer_id = t.id; account_id = t.payee_account_id; amount = t.amount }
    ∷ [])

-- The debit of the payer and the credit of the payee.
unfoldable pub entries : Transfer → Result DomainError (List LedgerEntry)
entries t = pair t (negated t.amount)

unfoldable pub assert_payer_can_afford : Transfer → Money → Result DomainError (Unit {0})
assert_payer_can_afford t balance =
    if less_than balance t.amount then err (insufficient_funds t.payer_account_id) else ok tt
