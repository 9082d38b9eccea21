-- ===== src/Bank/Idempotency/Refunds.antt =====
-- The refund of a compensation is booked under a key of its own: what that key guards, and what a
-- key that somebody else has taken does.
use distributed_payment_ledg.Prelude.{
  String, ◌≡◌, ◌≢◌, refl, sym, subst, ◌∙◌, ap, true, none, some, [], ◌∷◌, find, find-append_none,
  arith, eq_iff, eq_refl,
}
use distributed_payment_ledg.Prelude.Int.{pos, ◌<ℤ◌}
use distributed_payment_ledg.Exec.{Result, ok}
use distributed_payment_ledg.Money.{IsSafe}
use distributed_payment_ledg.Money.Laws.{from_cents-safe}
use distributed_payment_ledg.Bank.Domain.{Error, Transfer, suspense_account_id, create}
use distributed_payment_ledg.Bank.Database.{
  TransferRow, Database, Status, InterbankTransferRecord, has_id, has_key, is_for, length_within,
  transfer_checks,
}
use distributed_payment_ledg.Bank.Transfers.{
  TransferRecord, Draw, with_amount, to_record, find_by_id, insert,
}
use distributed_payment_ledg.Bank.Posting.{row_of}
use distributed_payment_ledg.Bank.Interbank.{move_debited, mark_compensated}
use distributed_payment_ledg.Bank.Interbank
use distributed_payment_ledg.Bank.Reply.{
  Outcome, SettlementOutcomeEvent, compensation_key, compensation, compensate, apply_outcome,
  handle,
}
use distributed_payment_ledg.Bank.Reply.Handling.{
  Application, Compensation, reversal_of, apply_outcome-Application,
}
use distributed_payment_ledg.Bank.Step.{Reach}
use distributed_payment_ledg.Bank.Invariant.History.{Reach-find_key}

module _ (event : SettlementOutcomeEvent) (draw : Draw) where
  abbrev key : String
  key = compensation_key event.settlement_id

  -- An outcome that compensates leaves its key taken.
  pub Application-takes_key :
      (db done : Database) {out : Result Error (Unit {0}) × Database}
      → event.outcome ≢ Outcome.confirmed
      → Application event draw db out
      → out ≡ (ok tt, done)
      → (row : TransferRow) × (find (has_key key) done.transfers ≡ some row)
  Application-takes_key db done other (Application.failed e h) k = absurd (ground arith)
  Application-takes_key db done other (Application.confirms e h) k = absurd (other e)
  Application-takes_key db done other
        (Application.compensates undo stored r e of_row (Compensation.failed why h)) k =
      absurd (ground arith)
  Application-takes_key db done other
        (Application.compensates undo stored r e of_row (Compensation.refunds p h)) k =
      let row : TransferRow = row_of (reversal_of stored draw.uuid r) key draw.now in
      (
        row,
        subst (λ d. find (has_key key) d.transfers ≡ some row) (ap (λ o. o.1) (sym h ∙ k))
            (find-append_none (has_key key) db.transfers (row ∷ []) p.fresh_key
              ∙ ground (arith, eq_refl key)),
      )
  Application-takes_key db done other
        (Application.compensates undo stored r e of_row (Compensation.closes earlier j h)) k =
      (
        earlier,
        subst (λ d. find (has_key key) d.transfers ≡ some earlier) (ap (λ o. o.1) (sym h ∙ k)) j,
      )

  -- With its key taken, an outcome books nothing.
  Application-books_nothing :
      (db : Database) (row : TransferRow) {out : Result Error (Unit {0}) × Database}
      → find (has_key key) db.transfers ≡ some row
      → Application event draw db out
      → (out.1.transfers ≡ db.transfers) × (out.1.ledger_entries ≡ db.ledger_entries)
  Application-books_nothing db row taken (Application.failed e h) = rw h (refl, refl)
  Application-books_nothing db row taken (Application.confirms e h) = rw h (refl, refl)
  Application-books_nothing db row taken
        (Application.compensates undo stored r e of_row (Compensation.failed why h)) =
      rw h (refl, refl)
  Application-books_nothing db row taken
        (Application.compensates undo stored r e of_row (Compensation.refunds p h)) =
      absurd (ground (arith, p.fresh_key))
  Application-books_nothing db row taken
        (Application.compensates undo stored r e of_row (Compensation.closes earlier j h)) =
      rw h (refl, refl)

-- If an outcome other than CONFIRMED was applied without an error, then applying any outcome for
-- the same settlement later, as one does that has read the transfer as DEBITED, books no
-- transfer and no entry, whatever steps were committed in between.
pub refund_once :
    (first second : SettlementOutcomeEvent) (draw draw' : Draw) (db : Database)
    {done later : Database}
    → second.settlement_id ≡ first.settlement_id
    → first.outcome ≢ Outcome.confirmed
    → apply_outcome first draw db ≡ (ok tt, done)
    → Reach done later
    → ((apply_outcome second draw' later).1.transfers ≡ later.transfers)
      × ((apply_outcome second draw' later).1.ledger_entries ≡ later.ledger_entries)
refund_once first second draw draw' db {done} {later} same other h steps =
    let (row, taken) =
      Application-takes_key first draw db done other (apply_outcome-Application first draw db) h in
    Application-books_nothing second draw' later row
      (subst (λ id. find (has_key (compensation_key id)) later.transfers ≡ some row) (sym same)
        (Reach-find_key (compensation_key first.settlement_id) row steps taken))
      (apply_outcome-Application second draw' later)

-- A transfer that waits for its outcome, whose compensation key another transfer holds.
pub record IsSquatted (id : String) (db : Database) : Type 0 where
  pub row : InterbankTransferRecord
  pub found : find (is_for id) db.interbank_transfers ≡ some row
  pub waits : row.status ≡ Status.debited
  pub stored : TransferRow
  pub local : find (has_id id) db.transfers ≡ some stored
  pub safe : IsSafe stored.amount
  pub positive : pos 0 <ℤ stored.amount
  pub not_suspense : suspense_account_id ≢ stored.payer_account_id
  pub key_fits : length_within 255 (compensation_key id) ≡ true
  pub squatter : TransferRow
  pub taken : find (has_key (compensation_key id)) db.transfers ≡ some squatter

module _ (id : String) (draw : Draw) (db : Database) (s : IsSquatted id db) where
  -- The record of the local transfer, and its reversal.
  abbrev original : TransferRecord
  original = with_amount s.stored (record { cents = s.stored.amount })

  abbrev reversal : Transfer
  reversal = reversal_of s.stored draw.uuid original

  find_original : find_by_id id db ≡ (ok (some original), db)
  unfolding find_by_id to_record
  find_original = ground (arith, s.local, from_cents-safe s.stored.amount s.safe)

  create-reversal :
      create draw.uuid suspense_account_id s.stored.payer_account_id
        (record { cents = s.stored.amount })
      ≡ ok reversal
  unfolding create
  create-reversal =
      ground
        (arith, s.positive, s.not_suspense, eq_iff suspense_account_id s.stored.payer_account_id)

  checks_pass : transfer_checks (row_of reversal (compensation_key id) draw.now) ≡ true
  unfolding transfer_checks
  checks_pass = ground (
    arith,
    s.positive,
    s.not_suspense,
    s.key_fits,
    eq_iff suspense_account_id s.stored.payer_account_id,
  )

  insert_skips : insert reversal (compensation_key id) draw.now db ≡ (ok none, db)
  unfolding insert
  insert_skips = ground (arith, checks_pass, s.taken)

  pub compensate-squatted :
      compensate id draw db ≡ (ok tt, move_debited Status.compensated draw.now id db)
  unfolding compensate compensation mark_compensated
  compensate-squatted = ground (arith, find_original, create-reversal, insert_skips)

squatted-outcomes :
    (event : SettlementOutcomeEvent) (draw : Draw) (db : Database)
    → IsSquatted event.settlement_id db
    → (o : Outcome) → event.outcome ≡ o
    → o ≢ Outcome.confirmed
    → apply_outcome event draw db
      ≡ (ok tt, move_debited Status.compensated draw.now event.settlement_id db)
unfolding apply_outcome
squatted-outcomes event draw db s Outcome.confirmed e other = absurd (other refl)
squatted-outcomes event draw db s _ e other =
    ground (arith, compensate-squatted event.settlement_id draw db s)

-- If a transfer waits for its outcome and another transfer holds the key of its compensation,
-- then handling a REVERSED or REJECTED outcome succeeds, marks the transfer COMPENSATED and
-- changes nothing else: no entry gives the money back.
pub squatted-no_refund :
    (event : SettlementOutcomeEvent) (draw : Draw) (db : Database)
    → event.outcome ≢ Outcome.confirmed
    → IsSquatted event.settlement_id db
    → handle event draw (λ d. d) db
      ≡ (ok tt, move_debited Status.compensated draw.now event.settlement_id db)
unfolding handle Interbank.find_by_id
squatted-no_refund event draw db other s =
    ground (arith, s.found, s.waits, squatted-outcomes event draw db s event.outcome refl other)
