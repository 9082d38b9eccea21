-- ===== src/Bank/Idempotency/Requests.antt =====
-- Retried requests of the transfer service.
use distributed_payment_ledg.Prelude.{String, ◌≡◌}
use distributed_payment_ledg.Exec.{ok}
use distributed_payment_ledg.Money.{IsSafe}
use distributed_payment_ledg.Bank.Database.{Database}
use distributed_payment_ledg.Bank.Transfers.{TransferRecord, Draw, Others, TransferParams, execute}
use distributed_payment_ledg.Bank.Transfers.Execution.{execute-Execution}
use distributed_payment_ledg.Bank.Transfers.Retry.{IsStored, execute-stored}
use distributed_payment_ledg.Bank.Transfers.Stored.{Execution-IsStored}
use distributed_payment_ledg.Bank.Step.{Reach}
use distributed_payment_ledg.Bank.Invariant.History.{Reach-find_key}

Reach-IsStored :
    {a b : Database} (key : String) (params : TransferParams) (r : TransferRecord)
    → Reach a b
    → IsStored key params r a
    → IsStored key params r b
Reach-IsStored key params r steps s = record {
  row = s.row;
  found = Reach-find_key key s.row steps s.found;
  read = s.read;
  agrees = s.agrees;
}

-- Once a transfer request, whose amount is a safe integer, has succeeded, any later retry with
-- its key and its parameters returns the same record and writes nothing, whatever steps were
-- committed in between and whatever commits meanwhile.
pub execute-retry :
    (key : String) (params : TransferParams) (draw retry_draw : Draw) (others retry_others : Others)
    (db : Database) {r : TransferRecord} {done later : Database}
    → IsSafe params.amount.cents
    → execute key params draw others db ≡ (ok r, done)
    → Reach done later
    → execute key params retry_draw retry_others later ≡ (ok r, later)
execute-retry key params draw retry_draw others retry_others db {r} {done} {later} safe first
      steps =
    let (w, stored) =
      Execution-IsStored key params draw others db r done safe
        (execute-Execution key params draw others db safe) first in
    execute-stored key params r retry_draw retry_others later w
      (Reach-IsStored key params r steps stored)
