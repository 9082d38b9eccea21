-- ===== src/Bank/Http/Validation.antt =====
-- The validation of the bodies of requests (src/*/dto/*.dto.ts): the decorators of each field. The
-- checks themselves are class-validator's, a parameter; a body is what `JSON.parse` gives of it.
use distributed_payment_ledg.Prelude.{
  ℕ, String, ◌≡◌, ap, inl, inr, Bool, true, false, ◌&&◌, Option, none, some, List, arith, ◌==◌,
  text_Eq, Bool-cases, if◌then◌else◌, find,
}
use distributed_payment_ledg.Prelude.Int.{ℤ, pos, ◌<ℤ◌, ltb_ℤ}
use distributed_payment_ledg.Money.{Number, integer, not_integer}
use distributed_payment_ledg.Bank.Http.{CreateTransferDto, CreateInterbankTransferDto}

-- A field of a body: it is missing, or a text or a number.
pub data Field : Type 0 where
  missing : Field
  text : String → Field
  number : Number → Field

abbrev pub Body : Type 0
Body = List (String × Field)

abbrev pub field : String → Body → Field
field name body = elim (find (λ entry. entry.0 == name) body) [
  | some entry ↦ entry.1
  | none ↦ missing
]

-- The decorators that the DTOs of transfers use.
pub record Validators : Type 0 where
  pub is_uuid : Field → Bool
  pub is_not_empty : Field → Bool
  pub max_length : ℕ → Field → Bool
  pub is_int : Field → Bool
  pub is_positive : Field → Bool

-- What the documentation of class-validator says of them.
pub record AreDocumented (v : Validators) : Type 0 where
  pub empty_missing : v.is_not_empty missing ≡ false
  pub uuid_text : (f : Field) → v.is_uuid f ≡ true → (t : String) × (f ≡ text t)
  pub int_number : (f : Field) → v.is_int f ≡ true → (z : ℤ) × (f ≡ number (integer z))
  pub positive_iff : (z : ℤ) → v.is_positive (number (integer z)) ≡ ltb_ℤ (pos 0) z

abbrev pub text_of : Field → String
text_of (text t) = t
text_of _ = ""

abbrev pub number_of : Field → Number
number_of (number n) = n
number_of _ = not_integer

module _ (v : Validators) where
  -- `CreateTransferDto`
  unfoldable pub validate_transfer : Body → Option CreateTransferDto
  validate_transfer body =
      let payer = field "payerAccountId" body in
      let payee = field "payeeAccountId" body in
      let amount = field "amountCents" body in
      if v.is_uuid payer && v.is_uuid payee && v.is_int amount && v.is_positive amount
      then some (record {
        payer_account_id = text_of payer;
        payee_account_id = text_of payee;
        amount_cents = number_of amount;
      })
      else none

  -- `CreateInterbankTransferDto`
  unfoldable pub validate_interbank : Body → Option CreateInterbankTransferDto
  validate_interbank body =
      let payer = field "payerAccountId" body in
      let bank = field "payeeBankId" body in
      let ref = field "payeeAccountRef" body in
      let amount = field "amountCents" body in
      if v.is_uuid payer
        && (v.is_not_empty bank && v.max_length 64 bank)
        && (v.is_not_empty ref && v.max_length 255 ref)
        && (v.is_int amount && v.is_positive amount)
      then some (record {
        payer_account_id = text_of payer;
        payee_bank_id = text_of bank;
        payee_account_ref = text_of ref;
        amount_cents = number_of amount;
      })
      else none

module _ (v : Validators) (d : AreDocumented v) where
  positive_amount :
      (f : Field)
      → v.is_int f ≡ true
      → v.is_positive f ≡ true
      → (z : ℤ) × (number_of f ≡ integer z) × (pos 0 <ℤ z)
  positive_amount f i p =
      let (z, e) = d.int_number f i in
      (z, ap number_of e, ground (arith, d.positive_iff z, ap v.is_positive e))

  -- A transfer whose body passes the validation is for a whole, positive number of cents.
  pub validate_transfer-IsPositive :
      (body : Body) (dto : CreateTransferDto)
      → validate_transfer v body ≡ some dto
      → (z : ℤ) × (dto.amount_cents ≡ integer z) × (pos 0 <ℤ z)
  unfolding validate_transfer
  validate_transfer-IsPositive body dto h =
      let amount : Field = field "amountCents" body in
      elim (Bool-cases (v.is_int amount && v.is_positive amount)) [
        | inr bad ↦ absurd (ground arith)
        | inl good ↦
            let (z, e, p) = positive_amount amount (ground arith) (ground arith) in
            (z, ground arith, p)
      ]

  -- So is a transfer to another bank.
  pub validate_interbank-IsPositive :
      (body : Body) (dto : CreateInterbankTransferDto)
      → validate_interbank v body ≡ some dto
      → (z : ℤ) × (dto.amount_cents ≡ integer z) × (pos 0 <ℤ z)
  unfolding validate_interbank
  validate_interbank-IsPositive body dto h =
      let amount : Field = field "amountCents" body in
      elim (Bool-cases (v.is_int amount && v.is_positive amount)) [
        | inr bad ↦ absurd (ground arith)
        | inl good ↦
            let (z, e, p) = positive_amount amount (ground arith) (ground arith) in
            (z, ground arith, p)
      ]
