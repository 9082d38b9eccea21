-- ===== src/Hub/Invariant/History.antt =====
-- The life of a settlement: it is decided once.
use distributed_payment_ledg.Prelude.{
  ℕ, String, ◌≡◌, refl, sym, subst, ap, ◌∙◌, none, some, List, [], ◌∷◌, arith, text_Eq, Bool-cases,
  inl, inr, find, update, find-append_some, if◌then◌else◌,
}
use distributed_payment_ledg.Hub.Database.{Database, Status, SettlementRecord, has_id}
use distributed_payment_ledg.Hub.Settlements.{
  row_of, is_open, confirm_row, reverse_row, unknown_payee_bank, reason_or_default,
}
use distributed_payment_ledg.Hub.Settlements.Requests.{accepted_row}
use distributed_payment_ledg.Hub.Step.{Develops, Later, Step, Reach, here, next}

-- An update of one settlement, seen through a lookup.
pub find-update_open :
    (f : SettlementRecord → SettlementRecord) (target id : String) (rows : List SettlementRecord)
    → ((row : SettlementRecord) → (f row).id ≡ row.id)
    → find (has_id id) (update (is_open target) f rows) ≡ elim (find (has_id id) rows) [
      | none ↦ none
      | some row ↦ some (if is_open target row then f row else row)
    ]
find-update_open f target id [] same = refl
find-update_open f target id (row ∷ rows) same =
    ground (arith, find-update_open f target id rows same, same row)

pub Develops-refl : (row : SettlementRecord) → Develops row row
Develops-refl row = record {
  same_id = refl;
  same_payer = refl;
  same_payee = refl;
  same_amount = refl;
  final = λ _. refl;
}

Develops-trans : {x y z : SettlementRecord} → Develops x y → Develops y z → Develops x z
Develops-trans {x} {y} {z} p q = record {
  same_id = q.same_id ∙ p.same_id;
  same_payer = q.same_payer ∙ p.same_payer;
  same_payee = q.same_payee ∙ p.same_payee;
  same_amount = q.same_amount ∙ p.same_amount;
  final = λ h. q.final (λ e. h (sym (ap (λ r. r.status) (p.final h)) ∙ e)) ∙ p.final h;
}

-- What an update of PENDING rows does to one row.
Develops-open :
    (f : SettlementRecord → SettlementRecord)
    → ((row : SettlementRecord) → row.status ≡ Status.pending → Develops row (f row))
    → (target : String) (row : SettlementRecord) (s : Status) → row.status ≡ s
    → Develops row (if is_open target row then f row else row)
Develops-open f step target row Status.pending e = elim (Bool-cases (has_id target row)) [
  | inl h ↦ subst (Develops row) (ground arith) (step row e)
  | inr h ↦ subst (Develops row) (ground arith) (Develops-refl row)
]
Develops-open f step target row _ e = subst (Develops row) (ground arith) (Develops-refl row)

Develops-confirm :
    (now : ℕ) (row : SettlementRecord)
    → row.status ≡ Status.pending
    → Develops row (confirm_row now row)
Develops-confirm now row e = record {
  same_id = refl;
  same_payer = refl;
  same_payee = refl;
  same_amount = refl;
  final = λ h. absurd (h e);
}

Develops-reverse :
    (now : ℕ) (reason : String) (row : SettlementRecord)
    → row.status ≡ Status.pending
    → Develops row (reverse_row now reason row)
Develops-reverse now reason row e = record {
  same_id = refl;
  same_payer = refl;
  same_payee = refl;
  same_amount = refl;
  final = λ h. absurd (h e);
}

module _ (id : String) (row : SettlementRecord) where
  Step-Later :
      {a b : Database} → Step a b → find (has_id id) a.settlements ≡ some row → Later id row b
  Step-Later (Step.registered bank db free) h = (row, h, Develops-refl row)
  Step-Later (Step.rejected event now amount db p) h = (
    row,
    find-append_some (has_id id) db.settlements
        (row_of event amount Status.rejected (some unknown_payee_bank) now ∷ []) h,
    Develops-refl row,
  )
  Step-Later (Step.accepted event now amount db e safe p) h = (
    row,
    find-append_some (has_id id) db.settlements (accepted_row event now amount ∷ []) h,
    Develops-refl row,
  )
  Step-Later (Step.confirmed read event now db later) h = (
    if is_open read.id row then confirm_row now row else row,
    rw (find-update_open (confirm_row now) read.id id db.settlements (λ r. refl), h),
    Develops-open (confirm_row now) (Develops-confirm now) read.id row row.status refl,
  )
  Step-Later (Step.reversed read event now db later safe) h =
      let change : SettlementRecord → SettlementRecord =
        reverse_row now (reason_or_default event.reason) in
      (
        if is_open read.id row then change row else row,
        rw (find-update_open change read.id id db.settlements (λ r. refl), h),
        Develops-open change (Develops-reverse now (reason_or_default event.reason)) read.id row
            row.status refl,
      )
  Step-Later (Step.published target now db) h = (row, h, Develops-refl row)

-- Through any committed transactions a settlement stays stored, keeps its id, its banks and its
-- amount, and once it is CONFIRMED, REVERSED or REJECTED its row never changes.
pub settlement-Develops :
    {a b : Database} (id : String) (row : SettlementRecord)
    → Reach a b
    → find (has_id id) a.settlements ≡ some row
    → (row' : SettlementRecord) × (find (has_id id) b.settlements ≡ some row') × Develops row row'
settlement-Develops id row here h = (row, h, Develops-refl row)
settlement-Develops id row (next r s) h =
    let (mid, found, first) = settlement-Develops id row r h in
    let (last, found', second) = Step-Later id mid s found in
    (last, found', Develops-trans first second)
