-- ===== src/Frontend.antt =====
-- The demo page (frontend/src): the state of App.tsx, its handlers, and the polling of transfers
-- (hooks/useTransferPolling.ts). A handler runs in pieces, from one `await` to the next, and each piece
-- is a function of the state: what other handlers do in between comes between the pieces. How a text
-- of dollars reads as a number of cents is a parameter, where `not_integer` is NaN or infinite.
pub mod Polling
pub mod Shown
pub mod Requests
mod Tests
use distributed_payment_ledg.Prelude.{
  ℕ, String, Bool, true, false, not, ◌||◌, Option, none, some, List, [], ◌∷◌, ◌++◌, ◌==◌, text_Eq,
  leb, if◌then◌else◌, update, select,
}
use distributed_payment_ledg.Prelude.Int.{ℤ, pos, leb_ℤ}
use distributed_payment_ledg.Exec.{Result, ok, err}
use distributed_payment_ledg.Money.{Number, integer, not_integer}
use distributed_payment_ledg.Bank.Database.{Status, Database}
use distributed_payment_ledg.Bank.Http.{
  Answer, success, failure, InterbankTransferResponse, get_interbank_transfer, respond,
}

-- api/types.ts: `BankAAccount`, `BankABalance` and `InterbankTransfer`, as far as the page reads them;
-- Bank B's types have the same fields under other names.
pub record AccountAnswer : Type 0 where
  pub id : String
  pub owner_name : String

pub record InterbankTransfer : Type 0 where
  pub transfer_id : String
  pub payer_account_id : String
  pub payee_account_ref : String
  pub amount_cents : ℤ
  pub status : Status

-- types.ts
pub record TrackedAccount : Type 0 where
  pub id : String
  pub owner_name : String
  pub balance_cents : Option ℤ

pub record TrackedTransfer : Type 0 where
  pub transfer_id : String
  pub payer_account_id : String
  pub payee_account_ref : String
  pub amount_cents : ℤ
  pub status : Status

-- What `jsonFetch` throws: what `fetch` threw, or an answer whose status is no success.
pub data FetchError : Type 0 where
  network : FetchError
  answered : ℕ → FetchError

-- The message in the error banner.
pub data Notice : Type 0 where
  pick_a_payer : Notice
  failed : FetchError → Notice

-- The state of `App`.
pub record App : Type 0 where
  pub bank_a_accounts : List TrackedAccount
  pub bank_b_accounts : List TrackedAccount
  pub transfers : List TrackedTransfer
  pub error : Option Notice

-- `jsonFetch`, for an answer of the service, where the network works.
abbrev pub json_fetch {ℓ κ} : {A : Type ℓ} {B : Type κ} → (A → B) → Answer A → Result FetchError B
json_fetch parse (success a) = ok (parse a)
json_fetch parse (failure status) = err (answered status)

-- The body of an answer, read as an `InterbankTransfer`.
abbrev pub parsed : InterbankTransferResponse → InterbankTransfer
parsed r = record {
  transfer_id = r.transfer_id;
  payer_account_id = r.payer_account_id;
  payee_account_ref = r.payee_account_ref;
  amount_cents = r.amount_cents;
  status = r.status;
}

-- `bankA.getInterbankTransfer`, where the network works.
unfoldable pub api_get_transfer :
    (String → Bool) → Database → String → Result FetchError InterbankTransfer
api_get_transfer is_uuid db id =
    json_fetch parsed (respond (get_interbank_transfer is_uuid id) db).0

-- `setError(null)`, the first statement of every handler.
abbrev pub clear_error : App → App
clear_error app = record app { error = none }

abbrev pub show_error : FetchError → App → App
show_error e app = record app { error = some (failed e) }

abbrev pub new_account : AccountAnswer → TrackedAccount
new_account a = record { id = a.id; owner_name = a.owner_name; balance_cents = some (pos 0) }

-- `createBankAAccount` and `createBankBAccount`, once the answer is there.
unfoldable pub bank_a_account_created : Result FetchError AccountAnswer → App → App
bank_a_account_created (err e) app = show_error e app
bank_a_account_created (ok a) app = record app {
  bank_a_accounts = app.bank_a_accounts ++ new_account a ∷ [];
}

unfoldable pub bank_b_account_created : Result FetchError AccountAnswer → App → App
bank_b_account_created (err e) app = show_error e app
bank_b_account_created (ok a) app = record app {
  bank_b_accounts = app.bank_b_accounts ++ new_account a ∷ [];
}

-- `prev.map((a) => (a.id === id ? { ...a, balanceCents } : a))`
abbrev pub with_balance : String → ℤ → List TrackedAccount → List TrackedAccount
with_balance id balance accounts =
    update (λ a. a.id == id) (λ a. record a { balance_cents = some balance }) accounts

-- `seed`, once the answer is there.
unfoldable pub seeded : String → Result FetchError ℤ → App → App
seeded id (err e) app = show_error e app
seeded id (ok balance) app = record app {
  bank_a_accounts = with_balance id balance app.bank_a_accounts;
}

-- `refreshBalances`, once both balances are there.
unfoldable pub balances_refreshed : String → String → ℤ → ℤ → App → App
balances_refreshed payer payee payer_balance payee_balance app = record app {
  bank_a_accounts = with_balance payer payer_balance app.bank_a_accounts;
  bank_b_accounts = with_balance payee payee_balance app.bank_b_accounts;
}

-- What a request for a transfer holds.
pub record TransferRequest : Type 0 where
  pub payer_account_id : String
  pub payee_account_ref : String
  pub amount_cents : ℤ

-- `!Number.isFinite(amountCents) || amountCents <= 0`, and the amount otherwise.
abbrev pub sendable : Number → Option ℤ
sendable not_integer = none
sendable (integer z) = if leb_ℤ z (pos 0) then none else some z

abbrev pub request_for : String → String → Option ℤ → Option TransferRequest
request_for payer payee none = none
request_for payer payee (some z) =
    if payer == "" || payee == ""
    then none
    else some (record { payer_account_id = payer; payee_account_ref = payee; amount_cents = z })

-- `sendTransfer`, up to the request: what it asks of the bank, if anything.
unfoldable pub send_transfer :
    (String → Number) → String → String → String → App → Option TransferRequest × App
send_transfer cents_of payer payee dollars app =
    elim (request_for payer payee (sendable (cents_of dollars))) [
      | some request ↦ (some request, clear_error app)
      | none ↦ (none, record app { error = some pick_a_payer })
    ]

abbrev pub tracked : InterbankTransfer → TrackedTransfer
tracked t = record {
  transfer_id = t.transfer_id;
  payer_account_id = t.payer_account_id;
  payee_account_ref = t.payee_account_ref;
  amount_cents = t.amount_cents;
  status = t.status;
}

-- `sendTransfer`, once the bank has answered.
unfoldable pub transfer_sent : Result FetchError InterbankTransfer → App → App
transfer_sent (err e) app = show_error e app
transfer_sent (ok t) app = record app { transfers = tracked t ∷ app.transfers }

-- `STATUS_LABEL` (components/TransferList.tsx)
abbrev pub status_label : Status → String
status_label Status.debited = "in flight…"
status_label Status.confirmed = "confirmed"
status_label Status.compensated = "compensated (refunded)"
