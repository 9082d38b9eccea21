-- ===== src/Frontend/Tests.antt =====
-- Runs of the page beside the bank, and the validation of what it sends.
use distributed_payment_ledg.Prelude.{
  String, ◌≡◌, refl, Bool, true, false, none, some, [], ◌∷◌, leb, count,
}
use distributed_payment_ledg.Prelude.Int.{ℤ, pos, ltb_ℤ}
use distributed_payment_ledg.Exec.{ok}
use distributed_payment_ledg.Money.{Number, integer, not_integer, from_cents}
use distributed_payment_ledg.Bank.Database.{Status}
use distributed_payment_ledg.Bank.Http.{CreateTransferDto, get_interbank_transfer}
use distributed_payment_ledg.Bank.Http.Validation.{
  Field, missing, text, number, Body, Validators, AreDocumented, validate_transfer,
  validate_interbank,
}
use distributed_payment_ledg.Bank.Interbank
use distributed_payment_ledg.Bank.Transfers
use distributed_payment_ledg.Bank.Transfers.{to_record}
use distributed_payment_ledg.Bank.Step.{here}
use distributed_payment_ledg.Bank.Tests.Saga.{refunded}
use distributed_payment_ledg.Frontend.{
  App, InterbankTransfer, TransferRequest, tracked, api_get_transfer, send_transfer,
}
use distributed_payment_ledg.Frontend.Polling.{polled}
use distributed_payment_ledg.Frontend.Requests.{page_body, IsFilled, send_transfer-refused}
use distributed_payment_ledg.Frontend.Shown.{World, IsShown, Step, Runs, Runs-IsShown}

abbrev shown : Status → InterbankTransfer
shown status = record {
  transfer_id = "t1";
  payer_account_id = "alice";
  payee_account_ref = "ref";
  amount_cents = pos 400;
  status = status;
}

-- One transfer is in flight, and the bank has compensated it since.
abbrev app : App
app = record {
  bank_a_accounts = [];
  bank_b_accounts = [];
  transfers = tracked (shown Status.debited) ∷ [];
  error = none;
}

abbrev any_id : String → Bool
any_id id = true

get_run : api_get_transfer any_id refunded "t1" ≡ ok (shown Status.compensated)
unfolding api_get_transfer get_interbank_transfer Interbank.get_transfer Transfers.find_by_id
    Interbank.find_by_id to_record from_cents
get_run = refl

abbrev start : World
start = record { bank = refunded; app = app }

abbrev after : World
after = record start {
  app = polled (tracked (shown Status.debited)) (api_get_transfer any_id refunded "t1") app;
}

Runs-IsShown_example : IsShown after
Runs-IsShown_example =
    Runs-IsShown
      (Runs.next Runs.here (Step.polls any_id (tracked (shown Status.debited)) refunded start here))
      (λ final. absurd (final refl), tt)

-- Checks that behave as they are documented.
abbrev checks : Validators
checks = record {
  is_uuid = λ f. elim f [ missing ↦ false | text t ↦ true | number n ↦ false ];
  is_not_empty = λ f. elim f [ missing ↦ false | text t ↦ leb 1 (count t) | number n ↦ true ];
  max_length = λ n f. elim f [ missing ↦ false | text t ↦ leb (count t) n | number m ↦ false ];
  is_int = λ f. elim f [
    | missing ↦ false
    | text t ↦ false
    | number n ↦ elim n [ integer z ↦ true | not_integer ↦ false ]
  ];
  is_positive = λ f. elim f [
    | missing ↦ false
    | text t ↦ false
    | number n ↦ elim n [ integer z ↦ ltb_ℤ (pos 0) z | not_integer ↦ false ]
  ];
}

uuid_text : (f : Field) → checks.is_uuid f ≡ true → (t : String) × (f ≡ text t)
uuid_text missing h = absurd (cc)
uuid_text (text t) h = (t, refl)
uuid_text (number n) h = absurd (cc)

int_number : (f : Field) → checks.is_int f ≡ true → (z : ℤ) × (f ≡ number (integer z))
int_number missing h = absurd (cc)
int_number (text t) h = absurd (cc)
int_number (number (integer z)) h = (z, refl)
int_number (number not_integer) h = absurd (cc)

checks-AreDocumented : AreDocumented checks
checks-AreDocumented = record {
  empty_missing = refl;
  uuid_text = uuid_text;
  int_number = int_number;
  positive_iff = λ z. refl;
}

-- The form holds ten dollars.
abbrev dollars : String → Number
dollars t = integer (pos 1000)

abbrev asked : TransferRequest
asked = record { payer_account_id = "alice"; payee_account_ref = "bob"; amount_cents = pos 1000 }

send_run : send_transfer dollars "alice" "bob" "10.00" app ≡ (some asked, app)
unfolding send_transfer
send_run = refl

send_transfer-refused_example :
    IsFilled asked × (validate_interbank checks (page_body asked) ≡ none)
send_transfer-refused_example =
    send_transfer-refused checks checks-AreDocumented dollars "alice" "bob" "10.00" app app asked
      send_run

abbrev body : Body
body =
    ("payerAccountId", text "alice")
    ∷ ("payeeAccountId", text "bob")
    ∷ ("amountCents", number (integer (pos 300)))
    ∷ []

abbrev dto : CreateTransferDto
dto = record {
  payer_account_id = "alice";
  payee_account_id = "bob";
  amount_cents = integer (pos 300);
}

validate_run : validate_transfer checks body ≡ some dto
unfolding validate_transfer
validate_run = refl
