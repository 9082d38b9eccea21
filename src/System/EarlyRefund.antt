-- ===== src/System/EarlyRefund.antt =====
-- A reconciliation that asks the Hub before the request has reached it.
use distributed_payment_ledg.Prelude.{
  ℕ, String, ◌≡◌, ◌≢◌, refl, sym, subst, ap, ◌∙◌, inl, inr, none, some, arith, ◌==◌, text_Eq,
  nat_Eq, Bool, find, find_holds, Option-cases,
}
use distributed_payment_ledg.Exec.{Result, ok, Result-cases, transaction}
use distributed_payment_ledg.Bank.Domain.{Error as BankError}
use distributed_payment_ledg.Bank.Database.{
  Database as BankDatabase, TransferRow, InterbankTransferRecord, has_key, is_for,
}
use distributed_payment_ledg.Bank.Database as BankData
use distributed_payment_ledg.Bank.Transfers.{Draw}
use distributed_payment_ledg.Bank.Interbank.{Config, move_debited}
use distributed_payment_ledg.Bank.Interbank.Reporting.{IsAt}
use distributed_payment_ledg.Bank.Invariant.Saga.{moved, find-move_debited}
use distributed_payment_ledg.Bank.Idempotency.Refunds.{Application-takes_key}
use distributed_payment_ledg.Bank.Posting.{row_of, post}
use distributed_payment_ledg.Bank.Reply.{Outcome, SettlementOutcomeEvent, handle, compensation_key}
use distributed_payment_ledg.Bank.Reply.Handling.{
  Application, Compensation, Handling, reversal_of, handle-Handling,
}
use distributed_payment_ledg.Bank.Reconciliation.{event_of, apply_response, Sweep, reconcile_one}
use distributed_payment_ledg.Hub.Domain.{Bank, Error}
use distributed_payment_ledg.Hub.Database.{
  Database as HubDatabase, SettlementRecord, Status, has_id,
}
use distributed_payment_ledg.Hub.Banks
use distributed_payment_ledg.Hub.Http.Answers.{settlement_by_id-answers}
use distributed_payment_ledg.Hub.Redelivery.Request.{find-new}
use distributed_payment_ledg.Hub.Settlements.{
  SettlementRequestedEvent, accept_request, handle_requested,
}
use distributed_payment_ledg.Hub.Settlements.Requests.{
  Accepting, accepted_row, accept_request-Accepting,
}
use distributed_payment_ledg.System.{System, hub_answer}

-- The transfer is compensated, under the key of its compensation.
abbrev pub IsRefunded : BankDatabase → String → Type 0
IsRefunded db id =
    IsAt db id BankData.Status.compensated
    × ((row : TransferRow) × (find (has_key (compensation_key id)) db.transfers ≡ some row))

-- The Hub holds the settlement as PENDING: it has moved the reserves.
abbrev pub IsPending : HubDatabase → String → Type 0
IsPending hub id =
    (row : SettlementRecord) × (find (has_id id) hub.settlements ≡ some row)
    × (row.status ≡ Status.pending)

compensated-IsAt :
    (now : ℕ) (id : String) (row : InterbankTransferRecord) (db before : BankDatabase)
    → before.interbank_transfers ≡ db.interbank_transfers
    → find (is_for id) db.interbank_transfers ≡ some row
    → row.status ≡ BankData.Status.debited
    → IsAt (move_debited BankData.Status.compensated now id before) id BankData.Status.compensated
compensated-IsAt now id row db before same found waits =
    let changed : InterbankTransferRecord = moved BankData.Status.compensated now id id row in
    (
      changed,
      find-move_debited BankData.Status.compensated now id id before.interbank_transfers
          ∙ ground (arith, same, found),
      ground (arith, waits, find_holds (is_for id) db.interbank_transfers found),
    )

module _ (event : SettlementOutcomeEvent) (draw : Draw) (db done : BankDatabase)
    (row : InterbankTransferRecord)
    (found : find (is_for event.settlement_id) db.interbank_transfers ≡ some row)
    (waits : row.status ≡ BankData.Status.debited) (undo : event.outcome ≢ Outcome.confirmed) where
  applied-IsAt :
      {out : Result BankError (Unit {0}) × BankDatabase}
      → Application event draw db out
      → out ≡ (ok tt, done)
      → IsAt done event.settlement_id BankData.Status.compensated
  applied-IsAt (Application.failed e h) k = absurd (ground arith)
  applied-IsAt (Application.confirms e h) k = absurd (undo e)
  applied-IsAt (Application.compensates u stored r e of_row (Compensation.failed why h)) k =
      absurd (ground arith)
  applied-IsAt (Application.compensates u stored r e of_row (Compensation.refunds p h)) k =
      subst (λ d. IsAt d event.settlement_id BankData.Status.compensated)
        (ap (λ o. o.1) (sym h ∙ k))
        (compensated-IsAt draw.now event.settlement_id row db
          (post
            (row_of (reversal_of stored draw.uuid r) (compensation_key event.settlement_id)
              draw.now)
            db)
          refl found waits)
  applied-IsAt (Application.compensates u stored r e of_row (Compensation.closes earlier j h)) k =
      subst (λ d. IsAt d event.settlement_id BankData.Status.compensated)
        (ap (λ o. o.1) (sym h ∙ k))
        (compensated-IsAt draw.now event.settlement_id row db db refl found waits)

  handled-IsRefunded :
      handle event draw (λ d. d) db ≡ (ok tt, done) → IsRefunded done event.settlement_id
  handled-IsRefunded h = go (handle-Handling event draw (λ d. d) db)
    where
      go :
          Handling event draw (λ d. d) db (handle event draw (λ d. d) db)
          → IsRefunded done event.settlement_id
      go (Handling.unknown k e) = absurd (ground arith)
      go (Handling.ignored other k final e) = absurd (ground (arith, found, waits))
      go (Handling.applied other k status a) =
          (applied-IsAt a h, Application-takes_key event draw db done undo a h)

accepted-IsPending :
    (event : SettlementRequestedEvent) (now : ℕ) (hub after : HubDatabase)
    {out : Result Error (Unit {0}) × HubDatabase}
    → find (has_id event.settlement_id) hub.settlements ≡ none
    → Accepting event now hub out
    → out ≡ (ok tt, after)
    → IsPending after event.settlement_id
accepted-IsPending event now hub after fresh (Accepting.failed e h) k = absurd (ground arith)
accepted-IsPending event now hub after fresh (Accepting.repeated earlier f h) k =
    absurd (ground arith)
accepted-IsPending event now hub after fresh (Accepting.accepts amount e safe p h) k =
    let row : SettlementRecord = accepted_row event now amount in
    (row, ground (arith, find-new row hub.settlements fresh), refl)

-- The reconciliation applies the rejection that it makes of the Hub's 404.
rejection-handled :
    (config : Config) (sweep : Sweep) (hub : HubDatabase) (id : String) (db done : BankDatabase)
    (changed : Bool)
    → sweep.hub id ≡ hub_answer hub id
    → sweep.meanwhile id ≡ (λ d. d)
    → find (has_id id) hub.settlements ≡ none
    → reconcile_one config sweep id db ≡ (ok changed, done)
    → handle
        (event_of id Outcome.rejected (some "RECONCILIATION_NO_RECORD_AT_HUB"))
        (sweep.draw id)
        (λ d. d)
        db
      ≡ (ok tt, done)
unfolding reconcile_one apply_response hub_answer
rejection-handled config sweep hub id db done changed asks alone absent h =
    elim (settlement_by_id-answers id hub) [
      | inr (row, found, answer) ↦ absurd (cc (sym absent, found))
      | inl (none_there, answer) ↦ elim (Option-cases config.hub_url) [
        | inl unset ↦ absurd (ground arith)
        | inr (url, set) ↦
            elim (Result-cases
              (handle (event_of id Outcome.rejected (some "RECONCILIATION_NO_RECORD_AT_HUB"))
                (sweep.draw id) (λ d. d) db).0) [
                  | inr (e, failed) ↦ absurd (ground arith)
                  | inl (a, fine) ↦ ground arith
                ]
      ]
    ]

-- If the Hub has not handled the request of a DEBITED transfer yet when the reconciliation asks, and
-- both the reconciliation and, later, the request succeed, and the payee's bank is registered, then
-- the bank has compensated the transfer and the Hub holds its settlement as PENDING.
pub early_refund :
    (config : Config) (sweep : Sweep) (s : System) (bank' : BankDatabase) (hub' : HubDatabase)
    (changed : Bool) (event : SettlementRequestedEvent) (now : ℕ) (row : InterbankTransferRecord)
    (payee : Bank)
    → sweep.hub event.settlement_id ≡ hub_answer s.hub event.settlement_id
    → sweep.meanwhile event.settlement_id ≡ (λ d. d)
    → find (has_id event.settlement_id) s.hub.settlements ≡ none
    → find (is_for event.settlement_id) s.bank.interbank_transfers ≡ some row
    → row.status ≡ BankData.Status.debited
    → find (λ b. b.id == event.payee_bank_id) s.hub.banks ≡ some payee
    → reconcile_one config sweep event.settlement_id s.bank ≡ (ok changed, bank')
    → handle_requested event now (λ d. d) s.hub ≡ (ok tt, hub')
    → IsRefunded bank' event.settlement_id × IsPending hub' event.settlement_id
unfolding handle_requested Banks.find_by_id
early_refund config sweep s bank' hub' changed event now row payee asks alone absent found waits
      known reconciled handled =
    (
      handled-IsRefunded
          (event_of event.settlement_id Outcome.rejected (some "RECONCILIATION_NO_RECORD_AT_HUB"))
          (sweep.draw event.settlement_id) s.bank bank' row found waits (λ e. cc)
          (rejection-handled config sweep s.hub event.settlement_id s.bank bank' changed asks alone
            absent reconciled),
      accepted-IsPending event now s.hub hub' {out = transaction (accept_request event now) s.hub}
          absent (accept_request-Accepting event now s.hub) (ground arith),
    )
