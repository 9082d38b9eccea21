-- ===== src/Bank/Invariant/Saga.antt =====
-- The saga of a transfer to another bank: its state never leaves CONFIRMED or COMPENSATED.
use distributed_payment_ledg.Prelude.{
  ℕ, String, ◌≡◌, ◌≢◌, refl, sym, subst, ap, ◌∙◌, ◌&&◌, none, some, List, [], ◌∷◌, arith, text_Eq,
  find, update, find-append_some, if◌then◌else◌,
}
use distributed_payment_ledg.Bank.Database.{Database, Status, InterbankTransferRecord, is_for}
use distributed_payment_ledg.Bank.Interbank.{is_debited, move_debited}
use distributed_payment_ledg.Bank.Step.{Step, Reach, here, next}

-- What an update of DEBITED rows does to the row of a transfer.
abbrev pub moved : Status → ℕ → String → String → InterbankTransferRecord → InterbankTransferRecord
moved status now target id row =
    if is_for target row && is_debited row
    then record row { status = status; updated_at = now }
    else row

pub find-move_debited :
    (status : Status) (now : ℕ) (target id : String) (rows : List InterbankTransferRecord)
    → find (is_for id) (
        update
          (λ row. is_for target row && is_debited row)
          (λ row. record row { status = status; updated_at = now })
          rows)
      ≡ elim (find (is_for id) rows) [
        | none ↦ none
        | some row ↦ some (moved status now target id row)
      ]
find-move_debited status now target id [] = refl
find-move_debited status now target id (row ∷ rows) =
    ground (arith, find-move_debited status now target id rows)

-- How a companion row may develop: what it is about stays, and a final state stays.
pub record Develops (row row' : InterbankTransferRecord) : Type 0 where
  pub same_transfer : row'.transfer_id ≡ row.transfer_id
  pub same_bank : row'.payee_bank_id ≡ row.payee_bank_id
  pub same_ref : row'.payee_account_ref ≡ row.payee_account_ref
  pub final : row.status ≢ Status.debited → row' ≡ row

Develops-refl : (row : InterbankTransferRecord) → Develops row row
Develops-refl row = record {
  same_transfer = refl;
  same_bank = refl;
  same_ref = refl;
  final = λ _. refl;
}

Develops-trans : {x y z : InterbankTransferRecord} → Develops x y → Develops y z → Develops x z
Develops-trans {x} {y} {z} p q = record {
  same_transfer = q.same_transfer ∙ p.same_transfer;
  same_bank = q.same_bank ∙ p.same_bank;
  same_ref = q.same_ref ∙ p.same_ref;
  final = λ h. q.final (λ e. h (sym (ap (λ r. r.status) (p.final h)) ∙ e)) ∙ p.final h;
}

Develops-status :
    (status s : Status) (now : ℕ) (target id : String) (row : InterbankTransferRecord)
    → row.status ≡ s
    → Develops row (moved status now target id row)
Develops-status status Status.debited now target id row e = record {
  same_transfer = ground arith;
  same_bank = ground arith;
  same_ref = ground arith;
  final = λ h. absurd (h e);
}
Develops-status status _ now target id row e =
    subst (Develops row) (ground arith) (Develops-refl row)

-- The row of a transfer, found in `b` as a development of the one in `a`.
abbrev Later : String → InterbankTransferRecord → Database → Type 0
Later id row b =
    (row' : InterbankTransferRecord) × (find (is_for id) b.interbank_transfers ≡ some row')
    × Develops row row'

Later-move :
    (status : Status) (now : ℕ) (target id : String) (row : InterbankTransferRecord) (db : Database)
    → find (is_for id) db.interbank_transfers ≡ some row
    → Later id row (move_debited status now target db)
Later-move status now target id row db h = (
  moved status now target id row,
  rw (find-move_debited status now target id db.interbank_transfers, h),
  Develops-status status row.status now target id row refl,
)

module _ (id : String) (row : InterbankTransferRecord) where
  Step-Later :
      {a b : Database}
      → Step a b
      → find (is_for id) a.interbank_transfers ≡ some row
      → Later id row b
  Step-Later (Step.account_opened a db free) h = (row, h, Develops-refl row)
  Step-Later (Step.transferred t db p covered) h = (row, h, Develops-refl row)
  Step-Later (Step.seeded t db p treasury) h = (row, h, Develops-refl row)
  Step-Later (Step.requested t ref request db p covered q fresh) h =
      (row, find-append_some (is_for id) db.interbank_transfers (ref ∷ []) h, Develops-refl row)
  Step-Later (Step.confirmed target now db) h = Later-move Status.confirmed now target id row db h
  Step-Later (Step.refunded original target t now db e p refund) h =
      Later-move Status.compensated now target id row db h
  Step-Later (Step.closed target earlier now db e) h =
      Later-move Status.compensated now target id row db h
  Step-Later (Step.published target now db) h = (row, h, Develops-refl row)

-- Through any committed transactions the companion row of a transfer stays, keeps the transfer, the
-- bank and the account that it names, and once it is CONFIRMED or COMPENSATED it never changes.
pub Reach-Develops :
    {a b : Database} (id : String) (row : InterbankTransferRecord)
    → Reach a b
    → find (is_for id) a.interbank_transfers ≡ some row
    → (row' : InterbankTransferRecord) × (find (is_for id) b.interbank_transfers ≡ some row')
      × Develops row row'
Reach-Develops id row here h = (row, h, Develops-refl row)
Reach-Develops id row (next r s) h =
    let (mid, found, first) = Reach-Develops id row r h in
    let (last, found', second) = Step-Later id mid s found in
    (last, found', Develops-trans first second)
