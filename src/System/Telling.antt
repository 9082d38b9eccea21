-- ===== src/System/Telling.antt =====
-- What the bank is told about a settlement stays true, and what it asks stays asked.
use distributed_payment_ledg.Prelude.{
  String, some, arith, ◌==◌, nat_Eq, text_Eq, Any, Any-append, Any-update,
}
use distributed_payment_ledg.Outbox.{OutboxRow}
use distributed_payment_ledg.Outbox
use distributed_payment_ledg.Hub.Database as HubData
use distributed_payment_ledg.Hub.Database.{Database as HubDatabase, SettlementRecord, Event}
use distributed_payment_ledg.Hub.Step as HubStep
use distributed_payment_ledg.System.{
  System, IsOutcomeOf, Told, announced, viewed, missing, Step, at_bank, at_hub, loses, Reach, here,
  next,
}
use distributed_payment_ledg.System.Agreement.AtHub.{Says-Step, none_yet_at_hub}

module _ (bank_id : String) where
  announced_at_hub :
      (id : String) (o : HubData.Outcome) {a b : HubDatabase} (p : HubStep.Step a b)
      → Any (IsOutcomeOf bank_id id o) a.outbox.rows
      → Any (IsOutcomeOf bank_id id o) b.outbox.rows
  unfolding Outbox.insert Outbox.mark_published
  announced_at_hub id o (HubStep.registered bank db free) h = h
  announced_at_hub id o (HubStep.rejected event now amount db p) h = Any-append db.outbox.rows _ h
  announced_at_hub id o (HubStep.accepted event now amount db e safe p) h =
      Any-append db.outbox.rows _ h
  announced_at_hub id o (HubStep.confirmed row event now db later) h = Any-append db.outbox.rows _ h
  announced_at_hub id o (HubStep.reversed row event now db later safe) h =
      Any-append db.outbox.rows _ h
  announced_at_hub id o (HubStep.published target now db) h =
      Any-update (λ row. row.id == target) (λ row. record row { published_at = some now })
        db.outbox.rows (λ row k. k) h

  Told-Step :
      (id : String) (o : HubData.Outcome) {a b : System}
      → Step bank_id a b
      → Told bank_id a id o
      → Told bank_id b id o
  Told-Step id o (at_bank s p w) (announced h) = announced h
  Told-Step id o (at_bank s p w) (viewed row found says) = viewed row found says
  Told-Step id o (at_bank s p w) (missing absent lost e) = missing absent lost e
  Told-Step id o (at_hub s p w) (announced h) = announced (announced_at_hub id o p h)
  Told-Step id o (at_hub s p w) (viewed row found says) =
      let (row', found', says') = Says-Step p id o (row, found, says) in viewed row' found' says'
  Told-Step id o (at_hub s p w) (missing absent lost e) =
      missing (none_yet_at_hub bank_id s p id w absent lost) lost e
  Told-Step id o (loses other s) (announced h) = announced h
  Told-Step id o (loses other s) (viewed row found says) = viewed row found says
  Told-Step id o (loses other s) (missing absent lost e) = missing absent (ground (arith, lost)) e

  pub Told-Reach :
      (id : String) (o : HubData.Outcome) {a b : System}
      → Reach bank_id a b
      → Told bank_id a id o
      → Told bank_id b id o
  Told-Reach id o here t = t
  Told-Reach id o (next r step) t = Told-Step id o step (Told-Reach id o r t)
