-- ===== src/Bank/Invariant/Suspense/Update.antt =====
-- The money held under the statements that add a transfer, add a companion row or settle one.
use distributed_payment_ledg.Prelude.{
  String, ◌≡◌, refl, sym, subst, ◌∙◌, Bool, true, ◌&&◌, none, some, List, [], ◌∷◌, ◌++◌, arith,
  text_Eq, eq_iff, find, find-append_none, find-append_some, update, Bool-cases, inl, inr,
}
use distributed_payment_ledg.Prelude.Int.{swap_changed, through_head, ◌+ℤ◌, zero-+ℤ, +ℤ_assoc}
use distributed_payment_ledg.Bank.Database.{TransferRow, InterbankTransferRecord, has_id, is_for}
use distributed_payment_ledg.Bank.Interbank.{is_debited}
use distributed_payment_ledg.Bank.Invariant.Suspense.{share, held, AreCompanions}

share-append :
    (transfers more : List TransferRow) (ref : InterbankTransferRecord) (row : TransferRow)
    → find (has_id ref.transfer_id) transfers ≡ some row
    → share (transfers ++ more) ref ≡ share transfers ref
share-append transfers more ref row h =
    ground (arith, find-append_some (has_id ref.transfer_id) transfers more {a = row})

-- Adding transfers changes nothing,
pub held-transfers :
    (transfers more : List TransferRow) (refs : List InterbankTransferRecord)
    → AreCompanions transfers refs
    → held (transfers ++ more) refs ≡ held transfers refs
held-transfers transfers more [] h = refl
held-transfers transfers more (ref ∷ refs) (fresh, (row, e), rest) =
    rw (share-append transfers more ref row e, held-transfers transfers more refs rest)

pub AreCompanions-transfers :
    (transfers more : List TransferRow) (refs : List InterbankTransferRecord)
    → AreCompanions transfers refs
    → AreCompanions (transfers ++ more) refs
AreCompanions-transfers transfers more [] h = tt
AreCompanions-transfers transfers more (ref ∷ refs) (fresh, (row, e), rest) = (
  fresh,
  (row, find-append_some (has_id ref.transfer_id) transfers more e),
  AreCompanions-transfers transfers more refs rest,
)

pub held-append :
    (transfers : List TransferRow) (xs ys : List InterbankTransferRecord)
    → held transfers (xs ++ ys) ≡ held transfers xs +ℤ held transfers ys
held-append transfers [] ys = sym (zero-+ℤ (held transfers ys))
held-append transfers (x ∷ xs) ys =
    rw (held-append transfers xs ys)
      (sym (+ℤ_assoc (share transfers x) (held transfers xs) (held transfers ys)))

pub AreCompanions-append :
    (transfers : List TransferRow) (refs : List InterbankTransferRecord)
    (ref : InterbankTransferRecord) (row : TransferRow)
    → find (has_id ref.transfer_id) transfers ≡ some row
    → find (is_for ref.transfer_id) refs ≡ none
    → AreCompanions transfers refs
    → AreCompanions transfers (refs ++ ref ∷ [])
AreCompanions-append transfers [] ref row e fresh h = (refl, (row, e), tt)
AreCompanions-append transfers (x ∷ xs) ref row e fresh (apart, known, rest) = (
  find-append_none (is_for x.transfer_id) xs (ref ∷ []) apart
      ∙ ground (arith, eq_iff ref.transfer_id x.transfer_id, eq_iff x.transfer_id ref.transfer_id),
  known,
  AreCompanions-append transfers xs ref row e (ground arith) rest,
)

-- The statement of `move_debited` on the rows.
abbrev pub hits : String → InterbankTransferRecord → Bool
hits id ref = is_for id ref && is_debited ref

module _ (f : InterbankTransferRecord → InterbankTransferRecord)
    (same_id : (r : InterbankTransferRecord) → (f r).transfer_id ≡ r.transfer_id) where
  find-update-none :
      (target id : String) (refs : List InterbankTransferRecord)
      → find (is_for id) refs ≡ none
      → find (is_for id) (update (hits target) f refs) ≡ none
  find-update-none target id [] h = refl
  find-update-none target id (x ∷ xs) h = ground (arith, find-update-none target id xs, same_id x)

  update_absent :
      (target : String) (refs : List InterbankTransferRecord)
      → find (is_for target) refs ≡ none
      → update (hits target) f refs ≡ refs
  update_absent target [] h = refl
  update_absent target (x ∷ xs) h = ground (arith, update_absent target xs)

  module _ (transfers : List TransferRow) (target : String) where
    pub update-AreCompanions :
        (refs : List InterbankTransferRecord)
        → AreCompanions transfers refs
        → AreCompanions transfers (update (hits target) f refs)
    update-AreCompanions [] h = tt
    update-AreCompanions (x ∷ xs) (fresh, (row, e), rest) = elim (Bool-cases (hits target x)) [
      | inl hit ↦ (
        ground (arith, find-update-none target x.transfer_id xs fresh, same_id x),
        (row, ground (arith, same_id x)),
        update-AreCompanions xs rest,
      )
      | inr miss ↦ (
        ground (arith, find-update-none target x.transfer_id xs fresh, same_id x),
        (row, ground (arith, same_id x)),
        update-AreCompanions xs rest,
      )
    ]

    -- An update of one DEBITED row moves what is held by the change of its share.
    pub held-update :
        (ref : InterbankTransferRecord) (refs : List InterbankTransferRecord)
        → AreCompanions transfers refs
        → find (is_for target) refs ≡ some ref
        → is_debited ref ≡ true
        → share transfers ref +ℤ held transfers (update (hits target) f refs)
          ≡ held transfers refs +ℤ share transfers (f ref)
    held-update ref [] h e d = ground arith
    held-update ref (x ∷ xs) (fresh, known, rest) e d = elim (Bool-cases (is_for target x)) [
      | inl hit ↦
          let x_id : x.transfer_id ≡ target = (eq_iff x.transfer_id target).0 hit in
          ground (
            arith,
            update_absent target xs (subst (λ id. find (is_for id) xs ≡ none) x_id fresh),
            swap_changed (share transfers ref) (share transfers (f ref)) (held transfers xs),
          )
      | inr miss ↦ ground (
        arith,
        through_head (share transfers ref) (share transfers x) (held transfers xs)
            (held transfers (update (hits target) f xs)) (share transfers (f ref))
            (held-update ref xs rest (ground arith) d),
      )
    ]
