-- ===== src/Bank/Http.antt =====
-- The HTTP interface of Bank A: the controllers (src/*/*.controller.ts) and the exception filter
-- (src/http/domain-exception.filter.ts). A body has passed the validation of its DTO, which is
-- class-validator's; whether an id in a path is a UUID (`ParseUUIDPipe`) is a parameter. A header is
-- Latin-1 text, in which a character is one UTF-16 unit.
pub mod Answers
pub mod Validation
pub mod Accounts
use distributed_payment_ledg.Prelude.{
  ℕ, String, Bool, nat_Eq, not, ◌||◌, Option, none, some, List, [], ◌∷◌, map, ◌==◌, text_Eq, ltb,
  count, find, if◌then◌else◌,
}
use distributed_payment_ledg.Prelude.Int.{ℤ}
use distributed_payment_ledg.Exec.{
  Result, ok, err, Exec, map_err, pure, throw, throw_if, ◌>>=◌, ◌>>◌,
}
use distributed_payment_ledg.Money.{Money, Number, from_cents}
use distributed_payment_ledg.Bank.Domain.{
  Account, DomainError, Error, domain, invalid_amount, self_transfer, insufficient_funds,
  account_not_found, transfer_not_found, idempotency_conflict,
}
use distributed_payment_ledg.Bank.Database.{Database, Status, Action, raise}
use distributed_payment_ledg.Bank.Ledger.{StatementLine}
use distributed_payment_ledg.Bank.Accounts.{
  create_account, get_account, get_balance, get_statement, dev_seed,
}
use distributed_payment_ledg.Bank.Transfers.{TransferRecord, TransferParams, Draw, Others}
use distributed_payment_ledg.Bank.Transfers
use distributed_payment_ledg.Bank.Interbank.{
  InterbankTransferParams, InterbankTransferResult, Config,
}
use distributed_payment_ledg.Bank.Interbank

-- `exception.name`, the name of the class.
abbrev pub name_of : DomainError → String
name_of (invalid_amount _) = "InvalidAmountError"
name_of self_transfer = "SelfTransferError"
name_of (insufficient_funds _) = "InsufficientFundsError"
name_of (account_not_found _) = "AccountNotFoundError"
name_of (transfer_not_found _) = "TransferNotFoundError"
name_of idempotency_conflict = "IdempotencyConflictError"

-- `STATUS_BY_ERROR`
abbrev pub status_by_error : List (String × ℕ)
status_by_error =
    ("AccountNotFoundError", 404)
    ∷ ("TransferNotFoundError", 404)
    ∷ ("InsufficientFundsError", 422)
    ∷ ("IdempotencyConflictError", 409)
    ∷ ("InvalidAmountError", 400)
    ∷ ("SelfTransferError", 400)
    ∷ []

-- `DomainExceptionFilter.catch`
unfoldable pub status_of : DomainError → ℕ
status_of e = elim (find (λ entry. entry.0 == name_of e) status_by_error) [
  | some entry ↦ entry.1
  | none ↦ 500
]

-- What a controller throws: `BadRequestException`, or what a service throws.
pub data HttpError : Type 0 where
  bad_request : HttpError
  thrown : Error → HttpError

-- The status of an error; one that is no domain error is the framework's 500.
abbrev pub error_status : HttpError → ℕ
error_status bad_request = 400
error_status (thrown (domain e)) = status_of e
error_status (thrown _) = 500

pub data Answer {ℓ} (A : Type ℓ) : Type ℓ where
  success : A → Answer A
  failure : ℕ → Answer A

abbrev pub Handler {ℓ} : Type ℓ → Type ℓ
Handler A = Exec HttpError Database A

abbrev pub service {ℓ} : {A : Type ℓ} → Action A → Handler A
service m db = let (r, after) = m db in (map_err thrown r, after)

-- The answer to a request.
abbrev pub respond {ℓ} : {A : Type ℓ} → Handler A → Database → Answer A × Database
respond m db =
    let (r, after) = m db in
    elim r [ ok a ↦ (success a, after) | err e ↦ (failure (error_status e), after) ]

-- `!idempotencyKey || idempotencyKey.length > 255`
abbrev pub checked_key : Option String → Handler String
checked_key none = throw bad_request
checked_key (some key) = throw_if (count key == 0 || ltb 255 (count key)) bad_request >> pure key

abbrev pub money : Number → Handler Money
money n = service (raise (map_err invalid_amount (from_cents n)))

pub record CreateTransferDto : Type 0 where
  pub payer_account_id : String
  pub payee_account_id : String
  pub amount_cents : Number

pub record TransferResponse : Type 0 where
  pub id : String
  pub payer_account_id : String
  pub payee_account_id : String
  pub amount_cents : ℤ
  pub created_at : ℕ

abbrev pub to_response : TransferRecord → TransferResponse
to_response r = record {
  id = r.id;
  payer_account_id = r.payer_account_id;
  payee_account_id = r.payee_account_id;
  amount_cents = r.amount.cents;
  created_at = r.created_at;
}

abbrev pub params_of : CreateTransferDto → Money → TransferParams
params_of body amount = record {
  payer_account_id = body.payer_account_id;
  payee_account_id = body.payee_account_id;
  amount = amount;
}

-- `TransfersController.create`
unfoldable pub create_transfer :
    Option String → CreateTransferDto → Draw → Others → Handler TransferResponse
create_transfer header body draw others = do
  key ← checked_key header
  amount ← money body.amount_cents
  r ← service (Transfers.execute key (params_of body amount) draw others)
  pure (to_response r)

pub record CreateInterbankTransferDto : Type 0 where
  pub payer_account_id : String
  pub payee_bank_id : String
  pub payee_account_ref : String
  pub amount_cents : Number

pub record InterbankTransferResponse : Type 0 where
  pub transfer_id : String
  pub payer_account_id : String
  pub payee_bank_id : String
  pub payee_account_ref : String
  pub amount_cents : ℤ
  pub status : Status
  pub created_at : ℕ

abbrev pub to_interbank_response : InterbankTransferResult → InterbankTransferResponse
to_interbank_response r = record {
  transfer_id = r.transfer.id;
  payer_account_id = r.transfer.payer_account_id;
  payee_bank_id = r.interbank.payee_bank_id;
  payee_account_ref = r.interbank.payee_account_ref;
  amount_cents = r.transfer.amount.cents;
  status = r.interbank.status;
  created_at = r.transfer.created_at;
}

abbrev pub interbank_params_of : CreateInterbankTransferDto → Money → InterbankTransferParams
interbank_params_of body amount = record {
  payer_account_id = body.payer_account_id;
  payee_bank_id = body.payee_bank_id;
  payee_account_ref = body.payee_account_ref;
  amount = amount;
}

-- `InterbankTransfersController.create`
unfoldable pub create_interbank_transfer :
    Option String
    → CreateInterbankTransferDto
    → Draw
    → Others
    → Config
    → Handler InterbankTransferResponse
create_interbank_transfer header body draw others config = do
  key ← checked_key header
  amount ← money body.amount_cents
  r ← service (Interbank.execute key (interbank_params_of body amount) draw others config)
  pure (to_interbank_response r)

module _ (is_uuid : String → Bool) where
  -- `ParseUUIDPipe`
  abbrev pub checked_id : String → Handler (Unit {0})
  checked_id id = throw_if (not (is_uuid id)) bad_request

  -- `TransfersController.get`
  unfoldable pub get_transfer : String → Handler TransferResponse
  get_transfer id = do checked_id id; r ← service (Transfers.get_transfer id); pure (to_response r)

  -- `InterbankTransfersController.get`
  unfoldable pub get_interbank_transfer : String → Handler InterbankTransferResponse
  get_interbank_transfer id = do
    checked_id id
    r ← service (Interbank.get_transfer id)
    pure (to_interbank_response r)
