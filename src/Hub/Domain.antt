-- ===== src/Hub/Domain.antt =====
-- The domain of the Hub (hub/src/domain): its errors, a settlement and its reserve entries.
use distributed_payment_ledg.Prelude.{ℕ, String, not, List, [], ◌∷◌, ◌==◌, text_Eq, if◌then◌else◌}
use distributed_payment_ledg.Exec.{Result, ok, err}
use distributed_payment_ledg.Money.{
  Money, integer, InvalidAmountError, invalid, negated, is_positive,
}

pub data DomainError : Type 0 where
  invalid_amount : InvalidAmountError → DomainError
  bank_not_found duplicate_bank : String → DomainError
  same_bank_settlement : DomainError
  settlement_not_found : String → DomainError

-- What a method can throw: a domain error, a statement that the database refuses, or the plain error
-- of a reply to a settlement that is not there.
pub data Error : Type 0 where
  domain : DomainError → Error
  database : Error
  no_settlement : String → Error

-- hub/src/domain/bank.ts
pub record Bank : Type 0 where
  pub id : String
  pub name : String
  pub base_url : String
  pub created_at : ℕ

pub record ReserveEntry : Type 0 where
  pub settlement_id : String
  pub bank_id : String
  pub amount : Money

pub record Settlement : Type 0 where
  pub id : String
  pub payer_bank_id : String
  pub payee_bank_id : String
  pub payee_account_ref : String
  pub amount : Money

-- `Settlement.create`
unfoldable pub create : String → String → String → String → Money → Result DomainError Settlement
create id payer_bank_id payee_bank_id payee_account_ref amount =
    if not (is_positive amount)
    then err (invalid_amount (invalid (integer amount.cents)))
    else if payer_bank_id == payee_bank_id
    then err same_bank_settlement
    else ok (record {
      id = id;
      payer_bank_id = payer_bank_id;
      payee_bank_id = payee_bank_id;
      payee_account_ref = payee_account_ref;
      amount = amount;
    })

-- The entry of the payer's bank and that of the payee's bank.
abbrev pub pair : Settlement → Money → Money → List ReserveEntry
pair s payer payee =
    record { settlement_id = s.id; bank_id = s.payer_bank_id; amount = payer }
    ∷ record { settlement_id = s.id; bank_id = s.payee_bank_id; amount = payee }
    ∷ []

-- `entries`
unfoldable pub entries : Settlement → Result DomainError (List ReserveEntry)
entries s = elim (negated s.amount) [
  | ok debit ↦ ok (pair s debit s.amount)
  | err e ↦ err (invalid_amount e)
]

-- `reversalEntries`
unfoldable pub reversal_entries : Settlement → Result DomainError (List ReserveEntry)
reversal_entries s = elim (negated s.amount) [
  | ok debit ↦ ok (pair s s.amount debit)
  | err e ↦ err (invalid_amount e)
]
