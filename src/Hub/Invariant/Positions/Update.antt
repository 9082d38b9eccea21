-- ===== src/Hub/Invariant/Positions/Update.antt =====
-- Positions under the statements that change the settlements and the reserve entries.
use distributed_payment_ledg.Prelude.{
  ℕ, String, ◌≡◌, refl, sym, subst, ◌∙◌, Bool, true, false, none, some, List, [], ◌∷◌, ◌++◌, arith,
  ◌==◌, text_Eq, eq_iff, find, find-append_none, update, if◌then◌else◌, Bool-cases, inl, inr,
}
use distributed_payment_ledg.Prelude.Int.{
  swap_changed, through_head, ℤ, pos, neg, ◌+ℤ◌, int_laws, zero-+ℤ, +ℤ_assoc,
}
use distributed_payment_ledg.Hub.Database.{SettlementRecord, ReserveRow, has_id}
use distributed_payment_ledg.Hub.Ledger.{reserve_of}
use distributed_payment_ledg.Hub.Settlements.{is_open, is_pending}
use distributed_payment_ledg.Hub.Settlements.Insertion.{moves}
use distributed_payment_ledg.Hub.Invariant.Positions.{net, share, position, IsDistinct}

pub reserve_of-append :
    (bank : String) (xs ys : List ReserveRow)
    → reserve_of bank (xs ++ ys) ≡ reserve_of bank xs +ℤ reserve_of bank ys
reserve_of-append bank [] ys = sym (zero-+ℤ (reserve_of bank ys))
reserve_of-append bank (x ∷ xs) ys = ground (
  arith,
  reserve_of-append bank xs ys,
  +ℤ_assoc x.amount (reserve_of bank xs) (reserve_of bank ys),
)

pub position-append :
    (bank : String) (xs ys : List SettlementRecord)
    → position bank (xs ++ ys) ≡ position bank xs +ℤ position bank ys
position-append bank [] ys = sym (zero-+ℤ (position bank ys))
position-append bank (x ∷ xs) ys =
    rw (position-append bank xs ys)
      (sym (+ℤ_assoc (share bank x) (position bank xs) (position bank ys)))

pick :
    (c d : Bool) (a b : ℤ)
    → (if c then a +ℤ (if d then b +ℤ pos 0 else pos 0) else (if d then b +ℤ pos 0 else pos 0))
      ≡ (if c then a else pos 0) +ℤ (if d then b else pos 0)
pick true true a b = omega int_laws
pick true false a b = refl
pick false true a b = omega int_laws
pick false false a b = omega int_laws

-- The entries of a settlement give each bank its net amount,
pub reserve_of-moves :
    (bank : String) (row : SettlementRecord) (now : ℕ)
    → reserve_of bank (moves row (neg row.amount_cents) row.amount_cents now) ≡ net bank row
reserve_of-moves bank row now =
    pick (row.payer_bank_id == bank) (row.payee_bank_id == bank) (neg row.amount_cents)
      row.amount_cents

undo :
    (c d : Bool) (a : ℤ)
    → ((if c then neg a else pos 0) +ℤ (if d then a else pos 0))
        +ℤ ((if c then a else pos 0) +ℤ (if d then neg a else pos 0))
      ≡ pos 0
undo true true a = omega int_laws
undo true false a = omega int_laws
undo false true a = omega int_laws
undo false false a = omega int_laws

-- and those of its reversal take it away.
pub reserve_of-moves_back :
    (bank : String) (row : SettlementRecord) (now : ℕ)
    → net bank row +ℤ reserve_of bank (moves row row.amount_cents (neg row.amount_cents) now)
      ≡ pos 0
reserve_of-moves_back bank row now =
    rw
      (pick (row.payer_bank_id == bank) (row.payee_bank_id == bank) row.amount_cents
        (neg row.amount_cents))
      (undo (row.payer_bank_id == bank) (row.payee_bank_id == bank) row.amount_cents)

pub IsDistinct-append :
    (row : SettlementRecord) (rows : List SettlementRecord)
    → IsDistinct rows
    → find (has_id row.id) rows ≡ none
    → IsDistinct (rows ++ row ∷ [])
IsDistinct-append row [] h fresh = (refl, tt)
IsDistinct-append row (x ∷ xs) h fresh = (
  find-append_none (has_id x.id) xs (row ∷ []) h.0
      ∙ ground (arith, eq_iff row.id x.id, eq_iff x.id row.id),
  IsDistinct-append row xs h.1 (ground arith),
)

module _ (f : SettlementRecord → SettlementRecord)
    (same_id : (r : SettlementRecord) → (f r).id ≡ r.id) where
  find-update-none :
      (target id : String) (rows : List SettlementRecord)
      → find (has_id id) rows ≡ none
      → find (has_id id) (update (is_open target) f rows) ≡ none
  find-update-none target id [] h = refl
  find-update-none target id (x ∷ xs) h = ground (arith, find-update-none target id xs, same_id x)

  pub update-IsDistinct :
      (target : String) (rows : List SettlementRecord)
      → IsDistinct rows
      → IsDistinct (update (is_open target) f rows)
  update-IsDistinct target [] h = tt
  update-IsDistinct target (x ∷ xs) h = elim (Bool-cases (is_open target x)) [
    | inl hit ↦ (
      ground (arith, find-update-none target x.id xs h.0, same_id x),
      update-IsDistinct target xs h.1,
    )
    | inr miss ↦
        (ground (arith, find-update-none target x.id xs h.0), update-IsDistinct target xs h.1)
  ]

  update_absent :
      (target : String) (rows : List SettlementRecord)
      → find (has_id target) rows ≡ none
      → update (is_open target) f rows ≡ rows
  update_absent target [] h = refl
  update_absent target (x ∷ xs) h = ground (arith, update_absent target xs)

  -- An update of one PENDING settlement moves every position by the change of its share.
  pub position-update :
      (bank target : String) (row : SettlementRecord) (rows : List SettlementRecord)
      → IsDistinct rows
      → find (has_id target) rows ≡ some row
      → is_pending row ≡ true
      → share bank row +ℤ position bank (update (is_open target) f rows)
        ≡ position bank rows +ℤ share bank (f row)
  position-update bank target row [] h e p = ground arith
  position-update bank target row (x ∷ xs) h e p = elim (Bool-cases (has_id target x)) [
    | inl hit ↦
        let x_id : x.id ≡ target = (eq_iff x.id target).0 hit in
        ground (
          arith,
          update_absent target xs (subst (λ id. find (has_id id) xs ≡ none) x_id h.0),
          swap_changed (share bank row) (share bank (f row)) (position bank xs),
        )
    | inr miss ↦ ground (
      arith,
      through_head (share bank row) (share bank x) (position bank xs)
          (position bank (update (is_open target) f xs)) (share bank (f row))
          (position-update bank target row xs h.1 (ground arith) p),
    )
  ]
