-- ===== src/Bank/Invariant/Announced.antt =====
-- The transactional outbox: a transfer to another bank and its event are written together.
use mathlib.Core.List.{map-append}
use distributed_payment_ledg.Prelude.{
  ℕ, String, ◌≡◌, refl, sym, ◌∙◌, ◌&&◌, some, List, [], ◌∷◌, map, arith, ◌==◌, nat_Eq, text_Eq,
  update,
}
use distributed_payment_ledg.Outbox
use distributed_payment_ledg.Outbox.{OutboxRow}
use distributed_payment_ledg.Bank.Database.{
  Database, Status, InterbankTransferRecord, SettlementRequest, is_for, TransferRow,
}
use distributed_payment_ledg.Bank.Interbank.{is_debited}
use distributed_payment_ledg.Bank.Step.{Step, Reach, here, next, with_companion, IsRequestFor}
use distributed_payment_ledg.Bank.Posting.{post}

-- The transfers that have a companion row, and the settlements that were asked for.
abbrev sent_ids : List InterbankTransferRecord → List String
sent_ids rows = map (λ r. r.transfer_id) rows

abbrev asked_ids : List (OutboxRow SettlementRequest) → List String
asked_ids rows = map (λ e. e.payload.settlement_id) rows

-- The outbox holds one event for each companion row, in the same order, and no other event.
abbrev pub IsAnnounced : Database → Type 0
IsAnnounced db = sent_ids db.interbank_transfers ≡ asked_ids db.outbox.rows

sent_ids-move :
    (status : Status) (now : ℕ) (id : String) (rows : List InterbankTransferRecord)
    → sent_ids (
        update
          (λ row. is_for id row && is_debited row)
          (λ row. record row { status = status; updated_at = now })
          rows)
      ≡ sent_ids rows
sent_ids-move status now id [] = refl
sent_ids-move status now id (row ∷ rows) = ground (arith, sent_ids-move status now id rows)

asked_ids-mark :
    (id now : ℕ) (rows : List (OutboxRow SettlementRequest))
    → asked_ids (update (λ row. row.id == id) (λ row. record row { published_at = some now }) rows)
      ≡ asked_ids rows
asked_ids-mark id now [] = refl
asked_ids-mark id now (row ∷ rows) = ground (arith, asked_ids-mark id now rows)

with_companion-IsAnnounced :
    (row : TransferRow) (ref : InterbankTransferRecord) (request : SettlementRequest)
    (db : Database)
    → IsRequestFor row ref request
    → IsAnnounced db
    → IsAnnounced (with_companion row ref request (post row db))
unfolding Outbox.insert
with_companion-IsAnnounced row ref request db q h =
    map-append (λ r. r.transfer_id) db.interbank_transfers (ref ∷ [])
    ∙ ground (arith, h, q.ref_id, q.request_id)
    ∙ sym (map-append (λ e. e.payload.settlement_id) db.outbox.rows _)

Step-IsAnnounced : {a b : Database} → Step a b → IsAnnounced a → IsAnnounced b
unfolding Outbox.mark_published
Step-IsAnnounced (Step.account_opened a db free) h = h
Step-IsAnnounced (Step.transferred row db p covered) h = h
Step-IsAnnounced (Step.seeded row db p treasury) h = h
Step-IsAnnounced (Step.requested row ref request db p covered q fresh) h =
    with_companion-IsAnnounced row ref request db q h
Step-IsAnnounced (Step.confirmed id now db) h =
    sent_ids-move Status.confirmed now id db.interbank_transfers ∙ h
Step-IsAnnounced (Step.refunded original id row now db e p refund) h =
    sent_ids-move Status.compensated now id db.interbank_transfers ∙ h
Step-IsAnnounced (Step.closed id earlier now db e) h =
    sent_ids-move Status.compensated now id db.interbank_transfers ∙ h
Step-IsAnnounced (Step.published id now db) h = h ∙ sym (asked_ids-mark id now db.outbox.rows)

-- If the outbox holds exactly one event for each transfer to another bank, in the same order, it
-- does so after any committed transactions: neither is ever written without the other.
pub Reach-IsAnnounced : {a b : Database} → Reach a b → IsAnnounced a → IsAnnounced b
Reach-IsAnnounced here h = h
Reach-IsAnnounced (next r s) h = Step-IsAnnounced s (Reach-IsAnnounced r h)
