-- ===== src/Bank/Reply/Handling.antt =====
-- How the handling of a settlement's outcome can end.
use distributed_payment_ledg.Prelude.{
  ℕ, String, ◌≡◌, ◌≢◌, refl, subst, inl, inr, none, some, arith, find, Option-cases,
}
use distributed_payment_ledg.Exec.{Result, ok, err, transaction, Result-cases}
use distributed_payment_ledg.Money.{Money, IsSafe}
use distributed_payment_ledg.Bank.Domain.{
  Error, Transfer, domain, database, no_interbank_transfer, no_local_transfer, suspense_account_id,
  create,
}
use distributed_payment_ledg.Bank.Database.{
  TransferRow, Database, Status, InterbankTransferRecord, has_id, has_key, is_for,
}
use distributed_payment_ledg.Bank.Posting.{row_of, post, IsPostable}
use distributed_payment_ledg.Bank.Posting.Book.{append-entries}
use distributed_payment_ledg.Bank.Transfers.{TransferRecord, Draw, insert, find_by_id}
use distributed_payment_ledg.Bank.Transfers.Insertion.{Insertion, insert-Insertion}
use distributed_payment_ledg.Bank.Transfers.Lookup.{Lookup, IsRecordOf, find_by_id-Lookup}
use distributed_payment_ledg.Bank.Interbank.{move_debited, mark_confirmed, mark_compensated}
use distributed_payment_ledg.Bank.Interbank
use distributed_payment_ledg.Bank.Reply.{
  Outcome, SettlementOutcomeEvent, compensation_key, compensation, compensate, apply_outcome,
  handle,
}

-- The transfer that gives the money of a stored row back.
abbrev pub reversal_of : TransferRow → String → TransferRecord → Transfer
reversal_of stored uuid r = record {
  id = uuid;
  payer_account_id = suspense_account_id;
  payee_account_id = r.payer_account_id;
  amount = r.amount;
}

pub create_lem :
    (id payer payee : String) (amount : Money) (t : Transfer)
    → create id payer payee amount ≡ ok t
    → t ≡ record { id = id; payer_account_id = payer; payee_account_id = payee; amount = amount }
unfolding create
create_lem id payer payee amount t h = ground arith

-- How the transaction of a compensation can end.
pub data Compensation (t : Transfer) (id : String) (now : ℕ) (db : Database)
    (out : Result Error (Unit {0}) × Database) : Type 0 where
  failed : (e : Error) → out ≡ (err e, db) → Compensation t id now db out
  refunds :
      IsPostable (row_of t (compensation_key id) now) db
      → out ≡ (
        ok tt,
        move_debited Status.compensated now id (post (row_of t (compensation_key id) now) db),
      )
      → Compensation t id now db out
  closes :
      (earlier : TransferRow)
      → find (has_key (compensation_key id)) db.transfers ≡ some earlier
      → out ≡ (ok tt, move_debited Status.compensated now id db)
      → Compensation t id now db out

module _ (t : Transfer) (id : String) (now : ℕ) (db : Database) (safe : IsSafe t.amount.cents) where
  from_Insertion :
      Insertion t (compensation_key id) now db (insert t (compensation_key id) now db)
      → Compensation t id now db (transaction (compensation t id now) db)
  unfolding compensation mark_compensated
  from_Insertion (Insertion.refused h) = failed database (ground arith)
  from_Insertion (Insertion.taken earlier e h) = closes earlier e (ground arith)
  from_Insertion (Insertion.inserted p h) = refunds p (
      ground (
        arith,
        append-entries t (compensation_key id) now db p.positive safe p.has_payer p.has_payee,
      ))

  -- A compensation fails and changes nothing, refunds and marks the transfer, or finds its key
  -- taken and only marks the transfer.
  pub compensation-Compensation : Compensation t id now db (transaction (compensation t id now) db)
  compensation-Compensation = from_Insertion (insert-Insertion t (compensation_key id) now db safe)

module _ (event : SettlementOutcomeEvent) (draw : Draw) (db : Database) where
  abbrev id : String
  id = event.settlement_id

  -- How the outcome of a DEBITED transfer can end.
  pub data Application (out : Result Error (Unit {0}) × Database) : Type 0 where
    failed : (e : Error) → out ≡ (err e, db) → Application out
    confirms :
        event.outcome ≡ Outcome.confirmed
        → out ≡ (ok tt, move_debited Status.confirmed draw.now id db)
        → Application out
    compensates :
        event.outcome ≢ Outcome.confirmed
        → (stored : TransferRow) (r : TransferRecord) → find (has_id id) db.transfers ≡ some stored
        → IsRecordOf stored r
        → Compensation (reversal_of stored draw.uuid r) id draw.now db out
        → Application out

  from_original :
      event.outcome ≢ Outcome.confirmed
      → Lookup (find (has_id id) db.transfers) db (find_by_id id db)
      → Application (compensate id draw db)
  unfolding compensate
  from_original undo (Lookup.failed e h) = failed e (ground arith)
  from_original undo (Lookup.missing no_row h) = failed (no_local_transfer id) (ground arith)
  from_original undo (Lookup.found stored r e read of_row h) =
      elim (Result-cases (create draw.uuid suspense_account_id r.payer_account_id r.amount)) [
        | inr (why, bad) ↦ failed (domain why) (ground arith)
        | inl (t, made) ↦ compensates undo stored r e of_row (
            subst (Compensation (reversal_of stored draw.uuid r) id draw.now db)
              (ground (
                arith,
                create_lem draw.uuid suspense_account_id r.payer_account_id r.amount t made,
              ))
              (compensation-Compensation (reversal_of stored draw.uuid r) id draw.now db
                (rw of_row.same_amount of_row.safe)))
      ]

  apply_outcome-cases :
      (o : Outcome) → event.outcome ≡ o → Application (apply_outcome event draw db)
  unfolding apply_outcome mark_confirmed
  apply_outcome-cases Outcome.confirmed e = confirms e (ground arith)
  apply_outcome-cases Outcome.reversed e =
      subst Application (ground arith) (from_original (λ c. cc) (find_by_id-Lookup db id))
  apply_outcome-cases Outcome.rejected e =
      subst Application (ground arith) (from_original (λ c. cc) (find_by_id-Lookup db id))

  pub apply_outcome-Application : Application (apply_outcome event draw db)
  apply_outcome-Application = apply_outcome-cases event.outcome refl

module _ (event : SettlementOutcomeEvent) (draw : Draw) (meanwhile : Database → Database)
    (db : Database) where
  -- How `handle` can end. Only a transfer that was read as DEBITED is acted on.
  pub data Handling (out : Result Error (Unit {0}) × Database) : Type 0 where
    unknown :
        find (is_for event.settlement_id) db.interbank_transfers ≡ none
        → out ≡ (err (no_interbank_transfer event.settlement_id), db)
        → Handling out
    ignored :
        (row : InterbankTransferRecord)
        → find (is_for event.settlement_id) db.interbank_transfers ≡ some row
        → row.status ≢ Status.debited
        → out ≡ (ok tt, db)
        → Handling out
    applied :
        (row : InterbankTransferRecord)
        → find (is_for event.settlement_id) db.interbank_transfers ≡ some row
        → row.status ≡ Status.debited
        → Application event draw (meanwhile db) out
        → Handling out

  handle_status :
      (row : InterbankTransferRecord)
      → find (is_for event.settlement_id) db.interbank_transfers ≡ some row
      → (s : Status) → row.status ≡ s
      → Handling (handle event draw meanwhile db)
  unfolding handle Interbank.find_by_id
  handle_status row e Status.debited h = applied row e h (
      subst (Application event draw (meanwhile db)) (ground arith)
        (apply_outcome-Application event draw (meanwhile db)))
  handle_status row e Status.confirmed h = ignored row e (λ d. cc) (ground arith)
  handle_status row e Status.compensated h = ignored row e (λ d. cc) (ground arith)

  pub handle-Handling : Handling (handle event draw meanwhile db)
  unfolding handle Interbank.find_by_id
  handle-Handling = elim (Option-cases (find (is_for event.settlement_id) db.interbank_transfers)) [
    | inl no_row ↦ unknown no_row (ground arith)
    | inr (row, e) ↦ handle_status row e row.status refl
  ]
