-- ===== src/Bank/Step/Refinement/Interbank.antt =====
-- `InterbankTransfersService.execute` refines the ledger.
use distributed_payment_ledg.Prelude.{String, ◌≡◌, refl}
use distributed_payment_ledg.Exec.{Result, ok}
use distributed_payment_ledg.Money.{IsSafe}
use distributed_payment_ledg.Bank.Domain.{Error, Transfer, suspense_account_id, create}
use distributed_payment_ledg.Bank.Database.{Database}
use distributed_payment_ledg.Bank.Posting.{row_of}
use distributed_payment_ledg.Bank.Transfers.{Draw, Others}
use distributed_payment_ledg.Bank.Interbank.{
  InterbankTransferParams, InterbankTransferResult, Config, request, execute,
}
use distributed_payment_ledg.Bank.Interbank.Opening.{companion}
use distributed_payment_ledg.Bank.Interbank.Execution.{
  Execution, refused, replayed, aborted, raced, requested, replay-reads, replay_winner-reads,
  execute-Execution,
}
use distributed_payment_ledg.Bank.Reply.Handling.{create_lem}
use distributed_payment_ledg.Bank.Step.{Reach, here, next, Step, IsRequestFor, Reach-trans}
use distributed_payment_ledg.Bank.Step.Refinement.Transfers.{OthersStep}

-- The companion row and the event that are written belong to the transfer.
pub request-IsRequestFor :
    (key : String) (params : InterbankTransferParams) (draw : Draw) (t : Transfer)
    (bank_id : String)
    → create draw.uuid params.payer_account_id suspense_account_id params.amount ≡ ok t
    → IsRequestFor (row_of t key draw.now) (companion t params draw.now) (request t params bank_id)
request-IsRequestFor key params draw t bank_id made = rw (create_lem _ _ _ _ t made) (record {
  to_suspense = refl;
  ref_id = refl;
  starts_debited = refl;
  request_id = refl;
  request_amount = refl;
  request_payee_bank = refl;
  request_payee_ref = refl;
})

module _ (key : String) (params : InterbankTransferParams) (draw : Draw) (others : Others)
    (config : Config) (db : Database) (steps : OthersStep others) where
  Execution-Reach :
      {out : Result Error InterbankTransferResult × Database}
      → Execution key params draw others config db out
      → Reach db out.1
  Execution-Reach (refused e h) = rw h here
  Execution-Reach (replayed r t stored h) = rw (h, replay-reads r t params db) here
  Execution-Reach (aborted e h) = rw h (steps.before_begin db)
  Execution-Reach (raced t h) =
      rw (h, replay_winner-reads key t params (others.after_rollback (others.before_begin db)))
        (Reach-trans (steps.before_begin db) (steps.after_rollback (others.before_begin db)))
  Execution-Reach (requested t bank_id made set fresh p covered h) = rw h (
      next (steps.before_begin db) (
        Step.requested (row_of t key draw.now) (companion t params draw.now)
          (request t params bank_id) (others.before_begin db) p covered
          (request-IsRequestFor key params draw t bank_id made) fresh))

  -- If the amount is a safe integer and what other requests commit is made of steps, a transfer
  -- to another bank takes at most one step of the ledger beside theirs.
  pub execute_interbank-Reach :
      IsSafe params.amount.cents → Reach db (execute key params draw others config db).1
  execute_interbank-Reach safe =
      Execution-Reach (execute-Execution key params draw others config db safe)
