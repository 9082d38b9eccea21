-- ===== src/Bank/Interbank/Ordering.antt =====
-- `ORDER BY updated_at`: the stale transfers, the one that waits longest first.
use mathlib.Core.List.{Perm}
use mathlib.Core.List.Perm
use distributed_payment_ledg.Prelude.{
  ℕ, eq_iff, ◌≤◌, ◌≡◌, refl, sym, ap, ◌∙◌, inl, inr, Bool, true, some, List, [], ◌∷◌, arith,
  text_Eq, leb, String, Bool-cases, find, select, All, All-map_lem, Any, at_head, in_tail,
}
use distributed_payment_ledg.Exec.{ok}
use distributed_payment_ledg.Bank.Database.{Database, InterbankTransferRecord, is_for}
use distributed_payment_ledg.Bank.Interbank.{
  place, order_by_updated_at, is_stale, find_stale_debited,
}

-- No row has been updated before one that stands ahead of it.
abbrev pub IsRising : List InterbankTransferRecord → Type 0
IsRising [] = Unit
IsRising (row ∷ rows) = All (λ other. row.updated_at ≤ other.updated_at) rows × IsRising rows

module _ (row : InterbankTransferRecord) where
  place-perm : (rows : List InterbankTransferRecord) → Perm (place row rows) (row ∷ rows)
  unfolding place
  place-perm [] = Perm.rfl
  place-perm (other ∷ rows) = elim (Bool-cases (leb row.updated_at other.updated_at)) [
    | inl first ↦ rw first Perm.rfl
    | inr later ↦
        rw later (Perm.trans (Perm.cons other (place-perm rows)) (Perm.swap row other rows))
  ]

  All-place :
      (bound : ℕ) (rows : List InterbankTransferRecord)
      → bound ≤ row.updated_at
      → All (λ other. bound ≤ other.updated_at) rows
      → All (λ other. bound ≤ other.updated_at) (place row rows)
  unfolding place
  All-place bound [] h hs = (h, tt)
  All-place bound (other ∷ rows) h hs = elim (Bool-cases (leb row.updated_at other.updated_at)) [
    | inl first ↦ rw first (h, hs)
    | inr later ↦ rw later (hs.0, All-place bound rows h hs.1)
  ]

  place-IsRising : (rows : List InterbankTransferRecord) → IsRising rows → IsRising (place row rows)
  unfolding place
  place-IsRising [] h = (tt, tt)
  place-IsRising (other ∷ rows) h = elim (Bool-cases (leb row.updated_at other.updated_at)) [
    | inl first ↦ rw first (
      (
        ground arith,
        All-map_lem (λ r (le : other.updated_at ≤ r.updated_at). ground arith) rows h.0,
      ),
      h,
    )
    | inr later ↦
        rw later (All-place other.updated_at rows (ground arith) h.0, place-IsRising rows h.1)
  ]

order-perm : (rows : List InterbankTransferRecord) → Perm (order_by_updated_at rows) rows
unfolding order_by_updated_at
order-perm [] = Perm.rfl
order-perm (row ∷ rows) =
    Perm.trans (place-perm row (order_by_updated_at rows)) (Perm.cons row (order-perm rows))

order-IsRising : (rows : List InterbankTransferRecord) → IsRising (order_by_updated_at rows)
unfolding order_by_updated_at
order-IsRising [] = tt
order-IsRising (row ∷ rows) = place-IsRising row (order_by_updated_at rows) (order-IsRising rows)

-- The reconciliation gets exactly the DEBITED transfers that were last updated before the given
-- time, each as often as it is stored, the one that waits longest first.
pub find_stale_debited-IsRising :
    (older_than : ℕ) (db : Database)
    → (rows : List InterbankTransferRecord) × (find_stale_debited older_than db ≡ (ok rows, db))
      × IsRising rows
      × Perm rows (select (is_stale older_than) db.interbank_transfers)
unfolding find_stale_debited
find_stale_debited-IsRising older_than db =
    let stale : List InterbankTransferRecord =
      select (is_stale older_than) db.interbank_transfers in
    (order_by_updated_at stale, refl, order-IsRising stale, order-perm stale)

Any-place :
    (id : String) (row : InterbankTransferRecord) (rows : List InterbankTransferRecord)
    → Any (λ r. r.transfer_id ≡ id) (row ∷ rows)
    → Any (λ r. r.transfer_id ≡ id) (place row rows)
unfolding place
Any-place id row [] h = h
Any-place id row (other ∷ rows) h = elim (Bool-cases (leb row.updated_at other.updated_at)) [
  | inl first ↦ rw first h
  | inr later ↦ rw later (behind (Any-place id row rows) h)
]
  where
    behind :
        (Any (λ r. r.transfer_id ≡ id) (row ∷ rows)
          → Any (λ r. r.transfer_id ≡ id) (place row rows))
        → Any (λ r. r.transfer_id ≡ id) (row ∷ other ∷ rows)
        → Any (λ r. r.transfer_id ≡ id) (other ∷ place row rows)
    behind step (at_head e) = in_tail (step (at_head e))
    behind step (in_tail (at_head e)) = at_head e
    behind step (in_tail (in_tail k)) = in_tail (step (in_tail k))

Any-order :
    (id : String) (rows : List InterbankTransferRecord)
    → Any (λ r. r.transfer_id ≡ id) rows
    → Any (λ r. r.transfer_id ≡ id) (order_by_updated_at rows)
unfolding order_by_updated_at
Any-order id [] h = h
Any-order id (row ∷ rows) (at_head e) = Any-place id row (order_by_updated_at rows) (at_head e)
Any-order id (row ∷ rows) (in_tail h) =
    Any-place id row (order_by_updated_at rows) (in_tail (Any-order id rows h))

selected :
    (id : String) (p : InterbankTransferRecord → Bool) (row : InterbankTransferRecord)
    (rows : List InterbankTransferRecord)
    → find (is_for id) rows ≡ some row
    → p row ≡ true
    → Any (λ r. r.transfer_id ≡ id) (select p rows)
selected id p row [] h passes = absurd (cc)
selected id p row (other ∷ rows) h passes = elim (Bool-cases (is_for id other)) [
  | inl hit ↦
      let same : other ≡ row = ground arith in
      rw (same, passes) (at_head ((eq_iff row.transfer_id id).0 (ap (is_for id) (sym same) ∙ hit)))
  | inr miss ↦
      let rest : Any (λ r. r.transfer_id ≡ id) (select p rows) =
        selected id p row rows (ground arith) passes in
      elim (Bool-cases (p other)) [ inl k ↦ rw k (in_tail rest) | inr k ↦ rw k rest ]
]

-- A stale transfer is among the rows that the reconciliation gets.
pub Any-stale :
    (older_than : ℕ) (id : String) (row : InterbankTransferRecord)
    (rows : List InterbankTransferRecord)
    → find (is_for id) rows ≡ some row
    → is_stale older_than row ≡ true
    → Any (λ r. r.transfer_id ≡ id) (order_by_updated_at (select (is_stale older_than) rows))
Any-stale older_than id row rows found stale =
    Any-order id (select (is_stale older_than) rows)
      (selected id (is_stale older_than) row rows found stale)
