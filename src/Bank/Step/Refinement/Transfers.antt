-- ===== src/Bank/Step/Refinement/Transfers.antt =====
-- `TransfersService.execute` refines the ledger.
use distributed_payment_ledg.Prelude.{String}
use distributed_payment_ledg.Exec.{Result}
use distributed_payment_ledg.Money.{IsSafe}
use distributed_payment_ledg.Bank.Domain.{Error}
use distributed_payment_ledg.Bank.Database.{Database}
use distributed_payment_ledg.Bank.Posting.{row_of}
use distributed_payment_ledg.Bank.Transfers.{TransferRecord, Draw, Others, TransferParams, execute}
use distributed_payment_ledg.Bank.Transfers.Execution.{
  Execution, refused, replayed, aborted, raced, posted, replay_winner-reads, execute-Execution,
}
use distributed_payment_ledg.Bank.Step.{Reach, here, next, transferred, Reach-trans}

-- What other requests commit is made of steps.
pub record OthersStep (others : Others) : Type 0 where
  pub before_begin : (db : Database) → Reach db (others.before_begin db)
  pub after_rollback : (db : Database) → Reach db (others.after_rollback db)

module _ (key : String) (params : TransferParams) (draw : Draw) (others : Others) (db : Database)
    (steps : OthersStep others) where
  Execution-Reach :
      {out : Result Error TransferRecord × Database}
      → Execution key params draw others db out
      → Reach db out.1
  Execution-Reach (refused e h) = rw h here
  Execution-Reach (replayed t r made k same h) = rw h here
  Execution-Reach (aborted e h) = rw h (steps.before_begin db)
  Execution-Reach (raced t made k h) =
      rw (h, replay_winner-reads key t (others.after_rollback (others.before_begin db)))
        (Reach-trans (steps.before_begin db) (steps.after_rollback (others.before_begin db)))
  Execution-Reach (posted t made p covered h) = rw h (
      next (steps.before_begin db)
        (transferred (row_of t key draw.now) (others.before_begin db) p covered))

  pub execute-Reach : IsSafe params.amount.cents → Reach db (execute key params draw others db).1
  execute-Reach safe = Execution-Reach (execute-Execution key params draw others db safe)
