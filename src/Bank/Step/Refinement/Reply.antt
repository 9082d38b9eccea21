-- ===== src/Bank/Step/Refinement/Reply.antt =====
-- The handling of outcomes and the reconciliation sweep refine the ledger.
use distributed_payment_ledg.Prelude.{
  ℕ, String, ◌≡◌, refl, subst, select, ◌-◌, Bool, List, [], ◌∷◌, arith, nat_Eq,
}
use distributed_payment_ledg.Exec.{Result, ok, err}
use distributed_payment_ledg.Bank.Domain.{Error}
use distributed_payment_ledg.Bank.Database.{TransferRow, Database, InterbankTransferRecord}
use distributed_payment_ledg.Bank.Posting.{row_of}
use distributed_payment_ledg.Bank.Transfers.{TransferRecord, Draw}
use distributed_payment_ledg.Bank.Transfers.Lookup.{IsRecordOf}
use distributed_payment_ledg.Bank.Interbank.{
  Config, order_by_updated_at, is_stale, find_stale_debited,
}
use distributed_payment_ledg.Bank.Reply.{SettlementOutcomeEvent, compensation_key, handle}
use distributed_payment_ledg.Bank.Reply.Handling.{
  Application, Compensation, Handling, reversal_of, handle-Handling,
}
use distributed_payment_ledg.Bank.Reconciliation.{
  Sweep, stale_after_ms, reconcile_one, reconcile_all, tally, sweep,
}
use distributed_payment_ledg.Bank.Reconciliation.Sweeping.{
  Reconciling, reconcile_one-Reconciling, apply_event-handle,
}
use distributed_payment_ledg.Bank.Step.{Reach, here, Step, IsRefundOf, Reach-trans, one}

pub refund-IsRefundOf :
    (stored : TransferRow) (r : TransferRecord) (id uuid : String) (now : ℕ)
    → IsRecordOf stored r
    → IsRefundOf stored id (row_of (reversal_of stored uuid r) (compensation_key id) now)
refund-IsRefundOf stored r id uuid now of_row = record {
  from_suspense = refl;
  to_payer = of_row.same_payer;
  same_amount = of_row.same_amount;
  under_key = refl;
}

Application-Reach :
    (event : SettlementOutcomeEvent) (draw : Draw) (db : Database)
    {out : Result Error (Unit {0}) × Database}
    → Application event draw db out
    → Reach db out.1
Application-Reach event draw db (Application.failed e h) = rw h here
Application-Reach event draw db (Application.confirms e h) =
    rw h (one (Step.confirmed event.settlement_id draw.now db))
Application-Reach event draw db
      (Application.compensates undo stored r e of_row (Compensation.failed why h)) =
    rw h here
Application-Reach event draw db
      (Application.compensates undo stored r e of_row (Compensation.refunds p h)) =
    rw h (
      one (
        Step.refunded stored event.settlement_id _ draw.now db e p
          (refund-IsRefundOf stored r event.settlement_id draw.uuid draw.now of_row)))
Application-Reach event draw db
      (Application.compensates undo stored r e of_row (Compensation.closes earlier k h)) =
    rw h (one (Step.closed event.settlement_id earlier draw.now db k))

module _ (event : SettlementOutcomeEvent) (draw : Draw) (meanwhile : Database → Database)
    (db : Database) (steps : Reach db (meanwhile db)) where
  Handling-Reach :
      {out : Result Error (Unit {0}) × Database}
      → Handling event draw meanwhile db out
      → Reach db out.1
  Handling-Reach (Handling.unknown k h) = rw h here
  Handling-Reach (Handling.ignored row k s h) = rw h here
  Handling-Reach (Handling.applied row k s a) =
      Reach-trans steps (Application-Reach event draw (meanwhile db) a)

  -- If what other requests commit is made of steps, handling an outcome takes at most one step
  -- of the ledger beside theirs.
  pub handle-Reach : Reach db (handle event draw meanwhile db).1
  handle-Reach = Handling-Reach (handle-Handling event draw meanwhile db)

-- What other requests commit while a sweep runs is made of steps.
pub record SweepStep (s : Sweep) : Type 0 where
  pub meanwhile : (id : String) (db : Database) → Reach db (s.meanwhile id db)

module _ (config : Config) (s : Sweep) (steps : SweepStep s) where
  Reconciling-Reach :
      (id : String) (db : Database) {out : Result Error Bool × Database}
      → Reconciling id (s.draw id) (s.meanwhile id) db out
      → Reach db out.1
  Reconciling-Reach id db (Reconciling.skipped h) = rw h here
  Reconciling-Reach id db (Reconciling.handled event same h) =
      rw (h, apply_event-handle (s.draw id) (s.meanwhile id) event db)
        (handle-Reach event (s.draw id) (s.meanwhile id) db (steps.meanwhile id db))

  pub reconcile_all-Reach :
      (rows : List InterbankTransferRecord) (n : ℕ) (db : Database)
      → Reach db (reconcile_all config s rows n db).1
  unfolding reconcile_all
  reconcile_all-Reach [] n db = here
  reconcile_all-Reach (row ∷ rows) n db =
      go (reconcile_all-Reach rows) (reconcile_one config s row.transfer_id db).0 refl
    where
      middle : Database
      middle = (reconcile_one config s row.transfer_id db).1

      first : Reach db middle
      first =
          Reconciling-Reach row.transfer_id db
            (reconcile_one-Reconciling config s row.transfer_id db)

      go :
          ((m : ℕ) (d : Database) → Reach d (reconcile_all config s rows m d).1)
          → (r : Result Error Bool) → (reconcile_one config s row.transfer_id db).0 ≡ r
          → Reach db (reconcile_all config s (row ∷ rows) n db).1
      go rest (ok changed) h =
          subst (Reach db) (ground arith)
            (Reach-trans first (rest (tally config s changed n) middle))
      go rest (err e) h = subst (Reach db) (ground arith) first

  -- If what other requests commit is made of steps, a whole sweep, throwing or not, takes steps
  -- of the ledger only.
  pub sweep-Reach : (now : ℕ) (db : Database) → Reach db (sweep config s now db).1
  unfolding sweep find_stale_debited
  sweep-Reach now db = subst (Reach db) (ground arith) (
      reconcile_all-Reach
        (order_by_updated_at (select (is_stale (now - stale_after_ms)) db.interbank_transfers)) 0
        db)
