-- ===== src/Bank/Invariant/Suspense/Operations.antt =====
-- Opening a transfer to another bank and handling its outcome keep the suspense account in step with
-- the companion rows, and so does a transfer inside the bank that is not with the suspense account.
use distributed_payment_ledg.Prelude.{String, ◌≡◌, ◌≢◌, arith, text_Eq}
use distributed_payment_ledg.Exec.{Result}
use distributed_payment_ledg.Money.{IsSafe}
use distributed_payment_ledg.Bank.Domain.{Error, Transfer, suspense_account_id}
use distributed_payment_ledg.Bank.Database.{Database}
use distributed_payment_ledg.Bank.Posting.{row_of, post, IsPostable}
use distributed_payment_ledg.Bank.Transfers.{Draw, Others}
use distributed_payment_ledg.Bank.Interbank.{
  InterbankTransferParams, InterbankTransferResult, Config, execute,
}
use distributed_payment_ledg.Bank.Interbank.Execution.{
  Execution, execute-Execution, replay-reads, replay_winner-reads,
}
use distributed_payment_ledg.Bank.Reply.Handling.{Handling, create_lem}
use distributed_payment_ledg.Bank.Invariant.Suspense.{IsHeld}
use distributed_payment_ledg.Bank.Transfers
use distributed_payment_ledg.Bank.Transfers.{TransferParams, TransferRecord}
use distributed_payment_ledg.Bank.Transfers.Execution as Local
use distributed_payment_ledg.Bank.Transfers.Execution.{replay_winner-reads as replay_winner-local}
use distributed_payment_ledg.Bank.Invariant.Suspense.Bookings.{post-IsHeld, opened-IsHeld}

module _ (key : String) (params : TransferParams) (draw : Draw) (others : Others) (db : Database)
    (not_payer : params.payer_account_id ≢ suspense_account_id)
    (not_payee : params.payee_account_id ≢ suspense_account_id) (before : IsHeld db)
    (begun : IsHeld (others.before_begin db))
    (rolled_back : IsHeld (others.after_rollback (others.before_begin db))) where
  booked-IsHeld :
      (t : Transfer)
      → t ≡ record {
        id = draw.uuid;
        payer_account_id = params.payer_account_id;
        payee_account_id = params.payee_account_id;
        amount = params.amount;
      }
      → IsPostable (row_of t key draw.now) (others.before_begin db)
      → IsHeld (post (row_of t key draw.now) (others.before_begin db))
  booked-IsHeld t made p =
      post-IsHeld (row_of t key draw.now) (others.before_begin db) (rw made not_payer)
        (rw made not_payee) p begun

  Local-IsHeld :
      {out : Result Error TransferRecord × Database}
      → Local.Execution key params draw others db out
      → IsHeld out.1
  Local-IsHeld (Local.Execution.refused e h) = rw h before
  Local-IsHeld (Local.Execution.replayed t r made e same h) = rw h before
  Local-IsHeld (Local.Execution.aborted e h) = rw h begun
  Local-IsHeld (Local.Execution.raced t made k h) =
      rw (h, replay_winner-local key t (others.after_rollback (others.before_begin db))) rolled_back
  Local-IsHeld (Local.Execution.posted t made p covered h) = rw h (
      booked-IsHeld t
        (create_lem draw.uuid params.payer_account_id params.payee_account_id params.amount t made)
        p)

  -- A transfer inside the bank keeps this too, where neither of its accounts is the suspense account.
  pub local-IsHeld :
      IsSafe params.amount.cents → IsHeld (Transfers.execute key params draw others db).1
  local-IsHeld safe = Local-IsHeld (Local.execute-Execution key params draw others db safe)

module _ (key : String) (params : InterbankTransferParams) (draw : Draw) (others : Others)
    (config : Config) (db : Database) (before : IsHeld db) (begun : IsHeld (others.before_begin db))
    (rolled_back : IsHeld (others.after_rollback (others.before_begin db))) where
  Execution-IsHeld :
      {out : Result Error InterbankTransferResult × Database}
      → Execution key params draw others config db out
      → IsHeld out.1
  Execution-IsHeld (Execution.refused e h) = rw h before
  Execution-IsHeld (Execution.replayed r t stored h) = rw (h, replay-reads r t params db) before
  Execution-IsHeld (Execution.aborted e h) = rw h begun
  Execution-IsHeld (Execution.raced t h) =
      rw (h, replay_winner-reads key t params (others.after_rollback (others.before_begin db)))
        rolled_back
  Execution-IsHeld (Execution.requested t bank_id made set fresh p covered h) = rw h (
      opened-IsHeld t key params draw.now bank_id (others.before_begin db)
        (ground (
          arith,
          create_lem draw.uuid params.payer_account_id suspense_account_id params.amount t made,
        ))
        p fresh begun)

  -- If the suspense account holds what the transfers that are not COMPENSATED have put there when a
  -- transfer to another bank is requested, when its transaction begins and when that was rolled
  -- back, and the amount is safe, then it still holds when the request was handled, on every branch.
  pub execute-IsHeld :
      IsSafe params.amount.cents → IsHeld (execute key params draw others config db).1
  execute-IsHeld safe = Execution-IsHeld (execute-Execution key params draw others config db safe)
