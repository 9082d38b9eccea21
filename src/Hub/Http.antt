-- ===== src/Hub/Http.antt =====
-- The HTTP interface of the Hub: its controllers (hub/src/banks/banks.controller.ts,
-- hub/src/settlements/settlements.controller.ts) and its exception filter
-- (hub/src/http/domain-exception.filter.ts). A body has passed the validation of its DTO.
pub mod Answers
use distributed_payment_ledg.Prelude.{
  ℕ, String, Option, none, some, List, [], ◌∷◌, ◌==◌, text_Eq, find,
}
use distributed_payment_ledg.Prelude.Int.{ℤ}
use distributed_payment_ledg.Exec.{Result, ok, err, pure, ◌>>=◌}
use distributed_payment_ledg.Hub.Domain.{
  Bank, DomainError, Error, domain, invalid_amount, bank_not_found, duplicate_bank,
  same_bank_settlement, settlement_not_found,
}
use distributed_payment_ledg.Hub.Database.{Database, SettlementRecord, Action}
use distributed_payment_ledg.Hub.Banks.{register_bank, list_banks, get_bank, get_reserve_balance}
use distributed_payment_ledg.Hub.Settlements.{get_settlement}

-- `exception.name`, the name of the class.
abbrev pub name_of : DomainError → String
name_of (invalid_amount _) = "InvalidAmountError"
name_of (bank_not_found _) = "BankNotFoundError"
name_of (duplicate_bank _) = "DuplicateBankError"
name_of same_bank_settlement = "SameBankSettlementError"
name_of (settlement_not_found _) = "SettlementNotFoundError"

-- `STATUS_BY_ERROR`
abbrev pub status_by_error : List (String × ℕ)
status_by_error =
    ("BankNotFoundError", 404)
    ∷ ("SettlementNotFoundError", 404)
    ∷ ("DuplicateBankError", 409)
    ∷ ("InvalidAmountError", 400)
    ∷ ("SameBankSettlementError", 400)
    ∷ []

-- `DomainExceptionFilter.catch`
unfoldable pub status_of : DomainError → ℕ
status_of e = elim (find (λ entry. entry.0 == name_of e) status_by_error) [
  | some entry ↦ entry.1
  | none ↦ 500
]

-- The status of an error; one that is no domain error is the framework's 500.
abbrev pub error_status : Error → ℕ
error_status (domain e) = status_of e
error_status _ = 500

pub data Answer {ℓ} (A : Type ℓ) : Type ℓ where
  success : A → Answer A
  failure : ℕ → Answer A

-- The answer to a request.
abbrev pub respond {ℓ} : {A : Type ℓ} → Action A → Database → Answer A × Database
respond m db =
    let (r, after) = m db in
    elim r [ ok a ↦ (success a, after) | err e ↦ (failure (error_status e), after) ]

pub record CreateBankDto : Type 0 where
  pub id : String
  pub name : String
  pub base_url : String

-- `BanksController.create`
unfoldable pub create_bank : CreateBankDto → ℕ → Action Bank
create_bank body now = register_bank body.id body.name body.base_url now

-- `BanksController.list`
unfoldable pub list : Action (List Bank)
list = list_banks

-- `BanksController.get`
unfoldable pub get : String → Action Bank
get id = get_bank id

pub record ReserveBalanceResponse : Type 0 where
  pub bank_id : String
  pub balance_cents : ℤ

-- `BanksController.reserveBalance`
unfoldable pub reserve_balance : String → Action ReserveBalanceResponse
reserve_balance id = do
  b ← get_reserve_balance id
  pure (record { bank_id = id; balance_cents = b.cents })

-- `SettlementsController.get`
unfoldable pub settlement_by_id : String → Action SettlementRecord
settlement_by_id id = get_settlement id
