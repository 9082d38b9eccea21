-- ===== src/Hub/Redelivery/Request.antt =====
-- A settlement request that is delivered again.
use distributed_payment_ledg.Prelude.{
  ℕ, String, ◌≡◌, refl, ◌∙◌, none, some, List, [], ◌∷◌, arith, find, ◌++◌, find-append_none,
  eq_refl, text_Eq,
}
use distributed_payment_ledg.Exec.{Result, ok}
use distributed_payment_ledg.Hub.Domain.{Error}
use distributed_payment_ledg.Hub.Database.{Database, SettlementRecord, Status, has_id}
use distributed_payment_ledg.Hub.Settlements.{
  SettlementRequestedEvent, row_of, handle_requested, unknown_payee_bank,
}
use distributed_payment_ledg.Hub.Settlements.Requests.{
  Requesting, accepted_row, handle_requested-Requesting,
}
use distributed_payment_ledg.Hub.Invariant.History.{settlement-Develops}
use distributed_payment_ledg.Hub.Step.{Reach, Reach-trans}

-- The row of a request is there once the request was handled without an error.
abbrev pub IsHandled : String → Database → Type 0
IsHandled id db = (row : SettlementRecord) × (find (has_id id) db.settlements ≡ some row)

pub find-new :
    (row : SettlementRecord) (rows : List SettlementRecord)
    → find (has_id row.id) rows ≡ none
    → find (has_id row.id) (rows ++ row ∷ []) ≡ some row
find-new row rows h =
    find-append_none (has_id row.id) rows (row ∷ []) h ∙ ground (arith, eq_refl row.id)

module _ (event : SettlementRequestedEvent) (now : ℕ) (db after : Database) where
  pub handled :
      {out : Result Error (Unit {0}) × Database}
      → Requesting event now db out
      → out ≡ (ok tt, after)
      → IsHandled event.settlement_id after
  handled (Requesting.failed e h) g = ground arith
  handled (Requesting.repeated earlier f h) g = (earlier, ground arith)
  handled (Requesting.rejects amount p h) g =
      let row : SettlementRecord =
        row_of event amount Status.rejected (some unknown_payee_bank) now in
      (row, ground (arith, find-new row db.settlements p.fresh))
  handled (Requesting.accepts amount e safe p h) g = (
    accepted_row event now amount,
    ground (arith, find-new (accepted_row event now amount) db.settlements p.fresh),
  )

  unchanged :
      (row : SettlementRecord) {out : Result Error (Unit {0}) × Database}
      → find (has_id event.settlement_id) db.settlements ≡ some row
      → Requesting event now db out
      → out.1 ≡ db
  unchanged row found (Requesting.failed e h) = rw h refl
  unchanged row found (Requesting.repeated earlier f h) = rw h refl
  unchanged row found (Requesting.rejects amount p h) = absurd (ground (arith, p.fresh))
  unchanged row found (Requesting.accepts amount e safe p h) = absurd (ground (arith, p.fresh))

-- Once a request was handled without an error, delivering it again changes nothing, whatever
-- steps are committed between the two deliveries and during the second.
pub request_redelivered :
    (event : SettlementRequestedEvent) (now now' : ℕ) (meanwhile meanwhile' : Database → Database)
    (db after later : Database)
    → handle_requested event now meanwhile db ≡ (ok tt, after)
    → Reach after later
    → Reach later (meanwhile' later)
    → (handle_requested event now' meanwhile' later).1 ≡ meanwhile' later
request_redelivered event now now' meanwhile meanwhile' db after later h r r' =
    let (row, found) =
      handled event now (meanwhile db) after (handle_requested-Requesting event now meanwhile db)
        h in
    let (row', found', develops) =
      settlement-Develops event.settlement_id row (Reach-trans r r') found in
    unchanged event now' (meanwhile' later) after row' found'
      (handle_requested-Requesting event now' meanwhile' later)
