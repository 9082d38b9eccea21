-- ===== src/Bank/Interbank.antt =====
-- Transfers to another bank (src/interbank-transfers/interbank-transfer.repository.ts and
-- interbank-transfers.service.ts): the companion row of a transfer to the suspense account, the
-- event that asks the Hub to settle it, and the service that writes all of it in one transaction.
pub mod Opening
pub mod Ordering
pub mod Reporting
pub mod Answered
pub mod Execution
use distributed_payment_ledg.Prelude.{
  ℕ, String, Bool, true, false, not, ◌&&◌, ◌||◌, Option, none, some, List, [], ◌∷◌, ◌++◌, ◌==◌,
  text_Eq, leb, ltb, if◌then◌else◌, find, exists, select, update,
}
use distributed_payment_ledg.Exec.{
  Result, ok, err, Ending, commit, rollback, transaction, pure, throw, throw_if, gets, modify,
  ◌>>=◌, ◌>>◌,
}
use distributed_payment_ledg.Money.{Money}
use distributed_payment_ledg.Outbox
use distributed_payment_ledg.Bank.Domain.{
  Transfer, Error, database, vanished, not_configured, account_not_found, transfer_not_found,
  idempotency_conflict, suspense_account_id, create,
}
use distributed_payment_ledg.Bank.Database.{
  Database, Status, debited, confirmed, compensated, InterbankTransferRecord, SettlementRequest,
  has_id, is_for, length_within, Action, raise, raise_unless,
}
use distributed_payment_ledg.Bank.Transfers.{
  TransferRecord, Draw, Others, find_by_idempotency_key, insert, lock_by_id, settle_payer, matches,
}
use distributed_payment_ledg.Bank.Transfers

-- The row that is inserted with a transfer: it starts DEBITED.
abbrev pub new_row : String → String → String → ℕ → InterbankTransferRecord
new_row transfer_id payee_bank_id payee_account_ref now = record {
  transfer_id = transfer_id;
  payee_bank_id = payee_bank_id;
  payee_account_ref = payee_account_ref;
  status = debited;
  created_at = now;
  updated_at = now;
}

-- The check, the primary key and the foreign key of `interbank_transfers`.
unfoldable pub row_checks : InterbankTransferRecord → Database → Bool
row_checks row db =
    length_within 255 row.payee_account_ref
    && not (exists (is_for row.transfer_id) db.interbank_transfers)
    && exists (has_id row.transfer_id) db.transfers

-- `InterbankTransferRepository.insert`
unfoldable pub insert_row : InterbankTransferRecord → Action InterbankTransferRecord
insert_row row db =
    if row_checks row db
    then (ok row, record db { interbank_transfers = db.interbank_transfers ++ row ∷ [] })
    else (err database, db)

unfoldable pub find_by_id : String → Action (Option InterbankTransferRecord)
find_by_id id = gets (λ db. find (is_for id) db.interbank_transfers)

abbrev pub is_debited : InterbankTransferRecord → Bool
is_debited row = elim row.status [ debited ↦ true | confirmed ↦ false | compensated ↦ false ]

-- `UPDATE … SET status = … WHERE transfer_id = $1 AND status = 'DEBITED'`
abbrev pub move_debited : Status → ℕ → String → Database → Database
move_debited status now id db = record db {
  interbank_transfers =
      update (λ row. is_for id row && is_debited row)
        (λ row. record row { status = status; updated_at = now }) db.interbank_transfers;
}

unfoldable pub mark_confirmed : String → ℕ → Action (Unit {0})
mark_confirmed id now = modify (move_debited confirmed now id)

unfoldable pub mark_compensated : String → ℕ → Action (Unit {0})
mark_compensated id now = modify (move_debited compensated now id)

-- `ORDER BY updated_at`, as an insertion sort.
unfoldable pub place :
    InterbankTransferRecord → List InterbankTransferRecord → List InterbankTransferRecord
place row [] = row ∷ []
place row (other ∷ rows) =
    if leb row.updated_at other.updated_at then row ∷ other ∷ rows else other ∷ place row rows

unfoldable pub order_by_updated_at : List InterbankTransferRecord → List InterbankTransferRecord
unfolding place
order_by_updated_at [] = []
order_by_updated_at (row ∷ rows) = place row (order_by_updated_at rows)

abbrev pub is_stale : ℕ → InterbankTransferRecord → Bool
is_stale older_than row = is_debited row && ltb row.updated_at older_than

unfoldable pub find_stale_debited : ℕ → Action (List InterbankTransferRecord)
find_stale_debited older_than =
    gets (λ db. order_by_updated_at (select (is_stale older_than) db.interbank_transfers))

pub record InterbankTransferParams : Type 0 where
  pub payer_account_id : String
  pub payee_bank_id : String
  pub payee_account_ref : String
  pub amount : Money

pub record InterbankTransferResult : Type 0 where
  pub transfer : TransferRecord
  pub interbank : InterbankTransferRecord

-- The variables of the environment that the service reads; one may be unset.
pub record Config : Type 0 where
  pub bank_id : Option String
  pub hub_url : Option String

-- `config.getOrThrow`
abbrev pub get_or_throw : String → Option String → Action String
get_or_throw name (some value) = pure value
get_or_throw name none = throw (not_configured name)

-- The event of a transfer, and the database with it in the outbox.
abbrev pub request : Transfer → InterbankTransferParams → String → SettlementRequest
request t params bank_id = record {
  settlement_id = t.id;
  payer_bank_id = bank_id;
  payee_bank_id = params.payee_bank_id;
  payee_account_ref = params.payee_account_ref;
  amount_cents = params.amount.cents;
}

abbrev pub settlement_requested_routing_key : String
settlement_requested_routing_key = "settlement.requested"

abbrev pub with_request : Transfer → InterbankTransferParams → String → Database → Database
with_request t params bank_id db = record db {
  outbox =
      Outbox.insert t.id "settlement.requested" settlement_requested_routing_key
        (request t params bank_id) db.outbox;
}

-- What is written beside the transfer: its companion row and the event.
unfoldable pub accompany :
    Transfer
    → TransferRecord
    → InterbankTransferParams
    → ℕ
    → Config
    → Action InterbankTransferResult
unfolding insert_row
accompany t r params now config = do
  interbank ← insert_row (new_row t.id params.payee_bank_id params.payee_account_ref now)
  bank_id ← get_or_throw "BANK_ID" config.bank_id
  modify (with_request t params bank_id)
  pure (record { transfer = r; interbank = interbank })

-- The body of the transaction of `execute`; only the payer is locked.
unfoldable pub open_transfer :
    Transfer
    → String
    → InterbankTransferParams
    → ℕ
    → Config
    → Action (Ending (Option InterbankTransferResult))
open_transfer t key params now config = do
  found ← lock_by_id t.payer_account_id
  raise_unless found (account_not_found t.payer_account_id)
  inserted ← insert t key now
  elim inserted [
    | none ↦ pure (rollback none)
    | some r ↦ do
      settle_payer t now
      result ← accompany t r params now config
      pure (commit (some result))
  ]

-- The companion row has to agree with the request too.
abbrev pub same_payee : Option InterbankTransferRecord → InterbankTransferParams → Bool
same_payee none params = false
same_payee (some row) params =
    row.payee_bank_id == params.payee_bank_id && row.payee_account_ref == params.payee_account_ref

abbrev pub with_interbank :
    TransferRecord
    → InterbankTransferParams
    → Option InterbankTransferRecord
    → Action InterbankTransferResult
with_interbank existing params none = raise (err idempotency_conflict)
with_interbank existing params (some row) =
    if same_payee (some row) params
    then pure (record { transfer = existing; interbank = row })
    else raise (err idempotency_conflict)

unfoldable pub replay :
    TransferRecord → Transfer → InterbankTransferParams → Action InterbankTransferResult
replay existing attempted params = do
  raise_unless (matches existing attempted) idempotency_conflict
  interbank ← find_by_id existing.id
  with_interbank existing params interbank

unfoldable pub replay_winner :
    String → Transfer → InterbankTransferParams → Action InterbankTransferResult
replay_winner key t params = do
  winner ← find_by_idempotency_key key
  elim winner [ none ↦ throw (vanished key) | some w ↦ replay w t params ]

unfoldable pub execute :
    String → InterbankTransferParams → Draw → Others → Config → Action InterbankTransferResult
execute key params draw others config = do
  t ← raise (create draw.uuid params.payer_account_id suspense_account_id params.amount)
  existing ← find_by_idempotency_key key
  elim existing [
    | some r ↦ replay r t params
    | none ↦ do
      modify others.before_begin
      opened ← transaction (open_transfer t key params draw.now config)
      elim opened [
        | some result ↦ pure result
        | none ↦ modify others.after_rollback >> replay_winner key t params
      ]
  ]

abbrev pub or_not_found {ℓ} : {A : Type ℓ} → String → Option A → Action A
or_not_found id none = raise (err (transfer_not_found id))
or_not_found id (some a) = pure a

unfoldable pub get_transfer : String → Action InterbankTransferResult
get_transfer id = do
  transfer ← Transfers.find_by_id id
  t ← or_not_found id transfer
  interbank ← find_by_id id
  row ← or_not_found id interbank
  pure (record { transfer = t; interbank = row })
