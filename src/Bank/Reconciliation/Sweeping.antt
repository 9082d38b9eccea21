-- ===== src/Bank/Reconciliation/Sweeping.antt =====
-- What one reconciliation may do: nothing, or what the handling of an outcome does.
use distributed_payment_ledg.Prelude.{
  String, ◌≡◌, refl, inl, inr, Bool, Option, none, some, arith, ◌==◌, nat_Eq, Bool-cases,
  Option-cases,
}
use distributed_payment_ledg.Exec.{Result, Result-cases}
use distributed_payment_ledg.Bank.Domain.{Error}
use distributed_payment_ledg.Bank.Database.{Database}
use distributed_payment_ledg.Bank.Transfers.{Draw}
use distributed_payment_ledg.Bank.Interbank.{Config}
use distributed_payment_ledg.Bank.Reply.{Outcome, SettlementOutcomeEvent, handle}
use distributed_payment_ledg.Bank.Reconciliation.{
  HubSettlementView, Response, unreachable, answered, is_ok, event_of, outcome_of, apply_event,
  apply_view, apply_response, Sweep, reconcile_one,
}

-- How a reconciliation can end: the outcome of one event is applied, or nothing is written.
pub data Reconciling (id : String) (draw : Draw) (meanwhile : Database → Database) (db : Database)
    (out : Result Error Bool × Database) : Type 0 where
  skipped : out.1 ≡ db → Reconciling id draw meanwhile db out
  handled :
      (event : SettlementOutcomeEvent)
      → event.settlement_id ≡ id
      → out ≡ apply_event draw meanwhile event db
      → Reconciling id draw meanwhile db out

module _ (id : String) (draw : Draw) (meanwhile : Database → Database) (db : Database) where
  abbrev Ends : Result Error Bool × Database → Type 0
  Ends = Reconciling id draw meanwhile db

  apply_view-Reconciling :
      (body : Option HubSettlementView) → Ends (apply_view draw meanwhile id body db)
  apply_view-Reconciling none = skipped refl
  apply_view-Reconciling (some view) = elim (Option-cases (outcome_of view.status)) [
    | inl waits ↦ skipped (ground arith)
    | inr (o, settled) ↦ handled (event_of id o view.reject_reason) refl (ground arith)
  ]

  pub apply_response-Reconciling :
      (response : Response) → Ends (apply_response draw meanwhile id response db)
  unfolding apply_response
  apply_response-Reconciling unreachable = skipped refl
  apply_response-Reconciling (answered status body) = elim (Bool-cases (status == 404)) [
    | inl no_record ↦
        handled (event_of id Outcome.rejected (some "RECONCILIATION_NO_RECORD_AT_HUB")) refl
          (ground arith)
    | inr other ↦ elim (Bool-cases (is_ok status)) [
      | inl fine ↦ rw (other, fine) (apply_view-Reconciling body)
      | inr wrong ↦ skipped (ground arith)
    ]
  ]

pub reconcile_one-Reconciling :
    (config : Config) (s : Sweep) (id : String) (db : Database)
    → Reconciling id (s.draw id) (s.meanwhile id) db (reconcile_one config s id db)
unfolding reconcile_one
reconcile_one-Reconciling config s id db = elim (Option-cases config.hub_url) [
  | inl unset ↦ skipped (ground arith)
  | inr (url, set) ↦
      rw set (apply_response-Reconciling id (s.draw id) (s.meanwhile id) db (s.hub id))
]

-- The database after an event is the one that `handle` leaves.
pub apply_event-handle :
    (draw : Draw) (meanwhile : Database → Database) (event : SettlementOutcomeEvent) (db : Database)
    → (apply_event draw meanwhile event db).1 ≡ (handle event draw meanwhile db).1
apply_event-handle draw meanwhile event db =
    elim (Result-cases (handle event draw meanwhile db).0) [
      | inl (a, h) ↦ ground arith
      | inr (e, h) ↦ ground arith
    ]
