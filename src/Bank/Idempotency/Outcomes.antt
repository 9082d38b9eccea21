-- ===== src/Bank/Idempotency/Outcomes.antt =====
-- Redelivered outcomes: the saga of a transfer is settled once.
use distributed_payment_ledg.Prelude.{
  ℕ, String, ◌≡◌, ◌≢◌, refl, sym, subst, ◌∙◌, ap, true, some, find, find_holds, arith,
}
use distributed_payment_ledg.Exec.{Result, ok}
use distributed_payment_ledg.Bank.Domain.{Error}
use distributed_payment_ledg.Bank.Database.{Database, Status, InterbankTransferRecord, is_for}
use distributed_payment_ledg.Bank.Transfers.{Draw}
use distributed_payment_ledg.Bank.Interbank.{move_debited}
use distributed_payment_ledg.Bank.Reply.{SettlementOutcomeEvent, handle}
use distributed_payment_ledg.Bank.Reply.Handling.{
  Application, Compensation, Handling, handle-Handling,
}
use distributed_payment_ledg.Bank.Step.{Reach}
use distributed_payment_ledg.Bank.Invariant.Saga.{moved, find-move_debited, Reach-Develops}

-- The transfer has a companion row, and it is in a final state.
pub record IsSettled (id : String) (db : Database) : Type 0 where
  pub row : InterbankTransferRecord
  pub found : find (is_for id) db.interbank_transfers ≡ some row
  pub final : row.status ≢ Status.debited

pub Reach-IsSettled : {a b : Database} (id : String) → Reach a b → IsSettled id a → IsSettled id b
Reach-IsSettled id steps s =
    let (row, found, develops) = Reach-Develops id s.row steps s.found in
    record {
      row = row;
      found = found;
      final = λ e. s.final (sym (ap (λ r. r.status) (develops.final s.final)) ∙ e);
    }

-- Once a transfer is settled, an outcome for it changes nothing.
handle-settled :
    (event : SettlementOutcomeEvent) (draw : Draw) (meanwhile : Database → Database) (db : Database)
    → IsSettled event.settlement_id db
    → handle event draw meanwhile db ≡ (ok tt, db)
handle-settled event draw meanwhile db s = go (handle-Handling event draw meanwhile db)
  where
    go :
        Handling event draw meanwhile db (handle event draw meanwhile db)
        → handle event draw meanwhile db ≡ (ok tt, db)
    go (Handling.unknown k h) = absurd (ground (arith, s.found))
    go (Handling.ignored row k e h) = h
    go (Handling.applied row k e a) = absurd (s.final (ground (arith, s.found)))

moved-final :
    (status : Status) (now : ℕ) (id : String) (row : InterbankTransferRecord)
    → status ≢ Status.debited
    → is_for id row ≡ true
    → (s : Status) → row.status ≡ s
    → (moved status now id id row).status ≢ Status.debited
moved-final status now id row h mine Status.debited e = λ k. h (ground (arith, k))
moved-final status now id row h mine _ e = λ k. ground (arith, k)

move_debited-IsSettled :
    (status : Status) (now : ℕ) (id : String) (row : InterbankTransferRecord) (db : Database)
    → status ≢ Status.debited
    → find (is_for id) db.interbank_transfers ≡ some row
    → IsSettled id (move_debited status now id db)
move_debited-IsSettled status now id row db h found = record {
  row = moved status now id id row;
  found = rw (find-move_debited status now id id db.interbank_transfers, found);
  final =
      moved-final status now id row h (find_holds (is_for id) db.interbank_transfers found)
        row.status refl;
}

move_debited-IsSettled_same :
    (status : Status) (now : ℕ) (id : String) (row : InterbankTransferRecord) (db before : Database)
    → status ≢ Status.debited
    → before.interbank_transfers ≡ db.interbank_transfers
    → find (is_for id) db.interbank_transfers ≡ some row
    → IsSettled id (move_debited status now id before)
move_debited-IsSettled_same status now id row db before h same found =
    move_debited-IsSettled status now id row before h
      (ap (λ rows. find (is_for id) rows) same ∙ found)

module _ (event : SettlementOutcomeEvent) (draw : Draw) where
  -- An outcome that is applied without an error settles the transfer.
  Application-IsSettled :
      (db done : Database) (row : InterbankTransferRecord)
      {out : Result Error (Unit {0}) × Database}
      → find (is_for event.settlement_id) db.interbank_transfers ≡ some row
      → Application event draw db out
      → out ≡ (ok tt, done)
      → IsSettled event.settlement_id done
  Application-IsSettled db done row found (Application.failed e h) k = absurd (ground arith)
  Application-IsSettled db done row found (Application.confirms e h) k =
      subst (IsSettled event.settlement_id) (ap (λ o. o.1) (sym h ∙ k)) (
        move_debited-IsSettled_same Status.confirmed draw.now event.settlement_id row db db
          (λ e. cc) refl found)
  Application-IsSettled db done row found
        (Application.compensates undo stored r e of_row (Compensation.failed why h)) k =
      absurd (ground arith)
  Application-IsSettled db done row found
        (Application.compensates undo stored r e of_row (Compensation.refunds p h)) k =
      subst (IsSettled event.settlement_id) (ap (λ o. o.1) (sym h ∙ k)) (
        move_debited-IsSettled_same Status.compensated draw.now event.settlement_id row db _
          (λ e. cc) refl found)
  Application-IsSettled db done row found
        (Application.compensates undo stored r e of_row (Compensation.closes earlier j h)) k =
      subst (IsSettled event.settlement_id) (ap (λ o. o.1) (sym h ∙ k)) (
        move_debited-IsSettled_same Status.compensated draw.now event.settlement_id row db db
          (λ e. cc) refl found)

  pub handled-IsSettled :
      (meanwhile : Database → Database) (db done : Database)
      → Reach db (meanwhile db)
      → Handling event draw meanwhile db (handle event draw meanwhile db)
      → handle event draw meanwhile db ≡ (ok tt, done)
      → IsSettled event.settlement_id done
  handled-IsSettled meanwhile db done steps (Handling.unknown j h) k = absurd (ground arith)
  handled-IsSettled meanwhile db done steps (Handling.ignored row j e h) k =
      subst (IsSettled event.settlement_id) (ap (λ o. o.1) (sym h ∙ k))
        (record { row = row; found = j; final = e })
  handled-IsSettled meanwhile db done steps (Handling.applied row j e a) k =
      let (row', found, develops) = Reach-Develops event.settlement_id row steps j in
      Application-IsSettled (meanwhile db) done row' found a k

-- If what other requests commit is made of steps and the handling of an outcome has succeeded,
-- then every later outcome for the same settlement, redelivered or contradicting, succeeds and
-- changes nothing.
pub handle-redelivered :
    (first second : SettlementOutcomeEvent) (draw draw' : Draw)
    (meanwhile meanwhile' : Database → Database) (db : Database) {done later : Database}
    → second.settlement_id ≡ first.settlement_id
    → Reach db (meanwhile db)
    → handle first draw meanwhile db ≡ (ok tt, done)
    → Reach done later
    → handle second draw' meanwhile' later ≡ (ok tt, later)
handle-redelivered first second draw draw' meanwhile meanwhile' db {done} {later} same steps h
      since =
    handle-settled second draw' meanwhile' later (
      subst (λ id. IsSettled id later) (sym same)
        (Reach-IsSettled first.settlement_id since (
          handled-IsSettled first draw meanwhile db done steps
            (handle-Handling first draw meanwhile db) h)))
