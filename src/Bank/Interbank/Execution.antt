-- ===== src/Bank/Interbank/Execution.antt =====
-- How `InterbankTransfersService.execute` can end, with other requests in between.
use distributed_payment_ledg.Prelude.{
  String, ◌≡◌, refl, inl, inr, false, Option, none, some, arith, exists, find, Bool-cases, text_Eq,
}
use distributed_payment_ledg.Prelude.Int.{◌≤ℤ◌}
use distributed_payment_ledg.Exec.{Result, ok, err, transaction, Result-cases}
use distributed_payment_ledg.Money.{IsSafe}
use distributed_payment_ledg.Bank.Domain.{Error, Transfer, domain, create, suspense_account_id}
use distributed_payment_ledg.Bank.Database.{Database, InterbankTransferRecord, is_for}
use distributed_payment_ledg.Bank.Ledger.{sum_of}
use distributed_payment_ledg.Bank.Posting.{row_of, post, IsPostable}
use distributed_payment_ledg.Bank.Transfers.{
  TransferRecord, matches, Draw, Others, find_by_idempotency_key,
}
use distributed_payment_ledg.Bank.Transfers.Execution.{find_by_idempotency_key-reads, create-amount}
use distributed_payment_ledg.Bank.Interbank.{
  InterbankTransferParams, InterbankTransferResult, Config, find_by_id, open_transfer,
  with_interbank, replay, replay_winner, execute,
}
use distributed_payment_ledg.Bank.Interbank.Opening.{
  Opening, accompanied, result_of, open_transfer-Opening,
}

with_interbank-reads :
    (r : TransferRecord) (params : InterbankTransferParams) (row : Option InterbankTransferRecord)
    (db : Database)
    → (with_interbank r params row db).1 ≡ db
with_interbank-reads r params none db = refl
with_interbank-reads r params (some row) db = ground arith

pub replay-reads :
    (r : TransferRecord) (t : Transfer) (params : InterbankTransferParams) (db : Database)
    → (replay r t params db).1 ≡ db
unfolding replay find_by_id
replay-reads r t params db = elim (Bool-cases (matches r t)) [
  | inr differs ↦ ground arith
  | inl same ↦
      ground (arith, with_interbank-reads r params (find (is_for r.id) db.interbank_transfers) db)
]

pub replay_winner-reads :
    (key : String) (t : Transfer) (params : InterbankTransferParams) (db : Database)
    → (replay_winner key t params db).1 ≡ db
unfolding replay_winner
replay_winner-reads key t params db =
    go (find_by_idempotency_key key db).0 (ground (arith, find_by_idempotency_key-reads key db))
  where
    go :
        (r : Result Error (Option TransferRecord))
        → find_by_idempotency_key key db ≡ (r, db)
        → (replay_winner key t params db).1 ≡ db
    go (err e) h = ground arith
    go (ok none) h = ground arith
    go (ok (some w)) h = ground (arith, replay-reads w t params db)

module _ (key : String) (params : InterbankTransferParams) (draw : Draw) (others : Others)
    (config : Config) (db : Database) where
  abbrev begun : Database
  begun = others.before_begin db

  -- How `execute` can end.
  pub data Execution (out : Result Error InterbankTransferResult × Database) : Type 0 where
    refused : (e : Error) → out ≡ (err e, db) → Execution out
    replayed :
        (r : TransferRecord) (t : Transfer)
        → find_by_idempotency_key key db ≡ (ok (some r), db)
        → out ≡ replay r t params db
        → Execution out
    aborted : (e : Error) → out ≡ (err e, begun) → Execution out
    raced :
        (t : Transfer)
        → out ≡ replay_winner key t params (others.after_rollback begun)
        → Execution out
    requested :
        (t : Transfer) (bank_id : String)
        → create draw.uuid params.payer_account_id suspense_account_id params.amount ≡ ok t
        → config.bank_id ≡ some bank_id
        → exists (is_for t.id) begun.interbank_transfers ≡ false
        → IsPostable (row_of t key draw.now) begun
        → t.amount.cents ≤ℤ sum_of t.payer_account_id begun.ledger_entries
        → out ≡ (
          ok (result_of t params draw.now),
          accompanied t params draw.now bank_id (post (row_of t key draw.now) begun),
        )
        → Execution out

  module _ (t : Transfer)
      (made : create draw.uuid params.payer_account_id suspense_account_id params.amount
        ≡ ok t) where
    in_transaction :
        find_by_idempotency_key key db ≡ (ok none, db)
        → Opening key t params draw.now config begun
            (transaction (open_transfer t key params draw.now config) begun)
        → Execution (execute key params draw others config db)
    unfolding execute
    in_transaction unused (Opening.failed e h) = aborted e (ground arith)
    in_transaction unused (Opening.lost h k) = raced t (ground arith)
    in_transaction unused (Opening.opened bank_id set fresh p covered h) =
        requested t bank_id made set fresh p covered (ground arith)

    after_create :
        IsSafe t.amount.cents
        → (r : Result Error (Option TransferRecord)) → find_by_idempotency_key key db ≡ (r, db)
        → Execution (execute key params draw others config db)
    unfolding execute
    after_create safe (err e) h = refused e (ground arith)
    after_create safe (ok none) h =
        in_transaction h (open_transfer-Opening key t params draw.now config begun safe)
    after_create safe (ok (some r)) h = replayed r t h (ground arith)

  pub execute-Execution :
      IsSafe params.amount.cents → Execution (execute key params draw others config db)
  unfolding execute
  execute-Execution safe =
      elim (Result-cases
        (create draw.uuid params.payer_account_id suspense_account_id params.amount)) [
          | inr (e, h) ↦ refused (domain e) (ground arith)
          | inl (t, h) ↦
              after_create t h (rw (create-amount _ _ _ _ t h) safe)
                (find_by_idempotency_key key db).0
                (ground (arith, find_by_idempotency_key-reads key db))
        ]
