-- ===== src/Frontend/Requests.antt =====
-- The request for a transfer that the page sends, and how the bank validates it.
use distributed_payment_ledg.Prelude.{
  String, ◌≡◌, ◌≢◌, refl, inl, inr, ◌||◌, Option, none, some, [], ◌∷◌, arith, ◌==◌, text_Eq, eq_iff,
  Bool-cases, Option-cases,
}
use distributed_payment_ledg.Prelude.Int.{ℤ, pos, ◌<ℤ◌}
use distributed_payment_ledg.Money.{Number, integer, not_integer}
use distributed_payment_ledg.Bank.Http.Validation.{
  Body, text, number, Validators, AreDocumented, validate_interbank,
}
use distributed_payment_ledg.Frontend.{App, TransferRequest, sendable, request_for, send_transfer}

-- The body of `createInterbankTransfer` (frontend/src/api/bankA.ts).
abbrev pub page_body : TransferRequest → Body
page_body r =
    ("payerAccountId", text r.payer_account_id)
    ∷ ("payeeAccountRef", text r.payee_account_ref)
    ∷ ("amountCents", number (integer r.amount_cents))
    ∷ []

-- What the form of the page asks for.
pub record IsFilled (request : TransferRequest) : Type 0 where
  pub has_payer : request.payer_account_id ≢ ""
  pub has_payee : request.payee_account_ref ≢ ""
  pub positive : pos 0 <ℤ request.amount_cents

sendable-positive : (n : Number) (z : ℤ) → sendable n ≡ some z → pos 0 <ℤ z
sendable-positive not_integer z h = absurd (cc)
sendable-positive (integer y) z h = ground arith

filled :
    (request : TransferRequest) (payer payee : String) (amount : Option ℤ)
    → ((z : ℤ) → amount ≡ some z → pos 0 <ℤ z)
    → request_for payer payee amount ≡ some request
    → IsFilled request
filled request payer payee none p h = absurd (cc)
filled request payer payee (some z) p h = elim (Bool-cases (payer == "" || payee == "")) [
  | inl empty ↦ absurd (ground arith)
  | inr full ↦ record {
    has_payer = λ e. ground (arith, eq_iff payer "");
    has_payee = λ e. ground (arith, eq_iff payee "");
    positive = ground (arith, p z refl);
  }
]

module _ (v : Validators) (d : AreDocumented v) where
  -- If the checks do what their documentation says, every request for a transfer that the form lets
  -- through names a payer, a payee and a positive amount, and the bank refuses its body: it names no
  -- bank of the payee.
  pub send_transfer-refused :
      (cents_of : String → Number) (payer payee dollars : String) (app after : App)
      (request : TransferRequest)
      → send_transfer cents_of payer payee dollars app ≡ (some request, after)
      → IsFilled request × (validate_interbank v (page_body request) ≡ none)
  unfolding send_transfer validate_interbank
  send_transfer-refused cents_of payer payee dollars app after request h =
      elim (Option-cases (request_for payer payee (sendable (cents_of dollars)))) [
        | inl none_made ↦ absurd (ground arith)
        | inr (r, made) ↦ (
          filled request payer payee (sendable (cents_of dollars))
              (sendable-positive (cents_of dollars)) (ground arith),
          ground (arith, d.empty_missing),
        )
      ]
