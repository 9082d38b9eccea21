-- ===== src/Hub/Http/Answers.antt =====
-- What a bank that asks the Hub for a settlement is told, and the statuses of errors.
use distributed_payment_ledg.Prelude.{
  String, ◌≡◌, ◌⊎◌, inl, inr, none, some, arith, find, Option-cases,
}
use distributed_payment_ledg.Hub.Database.{Database, SettlementRecord, has_id}
use distributed_payment_ledg.Hub.Settlements.{get_settlement}
use distributed_payment_ledg.Hub.Settlements
use distributed_payment_ledg.Hub.Http.{success, failure, status_of, respond, settlement_by_id}

-- The Hub answers a question for a settlement with the stored row, or with status 404 exactly if it
-- has none, and the question changes nothing.
pub settlement_by_id-answers :
    (id : String) (db : Database)
    → ((find (has_id id) db.settlements ≡ none)
        × (respond (settlement_by_id id) db ≡ (failure 404, db)))
      ⊎ ((row : SettlementRecord) × (find (has_id id) db.settlements ≡ some row)
          × (respond (settlement_by_id id) db ≡ (success row, db)))
unfolding settlement_by_id get_settlement Settlements.find_by_id status_of
settlement_by_id-answers id db = elim (Option-cases (find (has_id id) db.settlements)) [
  | inl missing ↦ inl (missing, ground arith)
  | inr (row, e) ↦ inr (row, e, ground arith)
]
