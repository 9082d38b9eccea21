-- ===== src/Hub/Settlements/Insertion.antt =====
-- How inserting a settlement, and the two entries of its reserves, can end.
use mathlib.Core.List.{append_assoc, append-nil, map}
use distributed_payment_ledg.Prelude.{
  ℕ, ◌≡◌, ◌≢◌, ◌⊎◌, inl, inr, true, Option, none, some, List, [], ◌∷◌, ◌++◌, arith, eq_iff, find,
  Option-cases, Bool-cases,
}
use distributed_payment_ledg.Prelude.Int.{ℤ, pos, ◌<ℤ◌}
use distributed_payment_ledg.Exec.{Result, ok, err}
use distributed_payment_ledg.Hub.Domain.{ReserveEntry, Error, database}
use distributed_payment_ledg.Hub.Database.{
  SettlementRecord, ReserveRow, Database, has_bank, has_id, settlement_checks, entry_checks,
  put_entry,
}
use distributed_payment_ledg.Hub.Ledger.{append, to_reserve_row}
use distributed_payment_ledg.Hub.Settlements.{add_row, insert}

-- What the checks grant of a row that was inserted.
pub record IsInsertable (row : SettlementRecord) (db : Database) : Type 0 where
  pub positive : pos 0 <ℤ row.amount_cents
  pub distinct : row.payer_bank_id ≢ row.payee_bank_id
  pub fresh : find (has_id row.id) db.settlements ≡ none
  pub has_payer : has_bank row.payer_bank_id db ≡ true

settlement_checks-holds :
    (row : SettlementRecord)
    → settlement_checks row ≡ true
    → (pos 0 <ℤ row.amount_cents) × (row.payer_bank_id ≢ row.payee_bank_id)
unfolding settlement_checks
settlement_checks-holds row h =
    (ground arith, λ e. ground (arith, (eq_iff row.payer_bank_id row.payee_bank_id).1 e))

module _ (row : SettlementRecord) (db : Database) where
  -- How `insert` can end.
  pub data Insertion (out : Result Error (Option SettlementRecord) × Database) : Type 0 where
    refused : out ≡ (err database, db) → Insertion out
    taken :
        (earlier : SettlementRecord)
        → find (has_id row.id) db.settlements ≡ some earlier
        → out ≡ (ok none, db)
        → Insertion out
    inserted : IsInsertable row db → out ≡ (ok (some row), add_row row db) → Insertion out

  checked-Insertion : settlement_checks row ≡ true → Insertion (insert row db)
  unfolding insert
  checked-Insertion checks = elim (Option-cases (find (has_id row.id) db.settlements)) [
    | inr (earlier, e) ↦ taken earlier e (ground arith)
    | inl free ↦ elim (Bool-cases (has_bank row.payer_bank_id db)) [
      | inr missing ↦ refused (ground arith)
      | inl payer ↦
          let (positive, distinct) = settlement_checks-holds row checks in
          inserted
            (record { positive = positive; distinct = distinct; fresh = free; has_payer = payer })
            (ground arith)
    ]
  ]

  pub insert-Insertion : Insertion (insert row db)
  unfolding insert
  insert-Insertion = elim (Bool-cases (settlement_checks row)) [
    | inl checks ↦ checked-Insertion checks
    | inr fails ↦ refused (ground arith)
  ]

-- The two entries that move an amount between the reserves of a settlement's banks.
abbrev pub moves : SettlementRecord → ℤ → ℤ → ℕ → List ReserveRow
moves row payer payee now =
    record { settlement_id = row.id; bank_id = row.payer_bank_id; amount = payer; created_at = now }
    ∷ record {
      settlement_id = row.id;
      bank_id = row.payee_bank_id;
      amount = payee;
      created_at = now;
    }
    ∷ []

abbrev pub with_entries : List ReserveRow → Database → Database
with_entries rows db = record db { ledger_entries = db.ledger_entries ++ rows }

put_entry-cases :
    (row : ReserveRow) (db : Database)
    → (put_entry row db ≡ (ok tt, with_entries (row ∷ []) db))
      ⊎ (put_entry row db ≡ (err database, db))
unfolding put_entry
put_entry-cases row db = elim (Bool-cases (entry_checks row db)) [
  | inl passes ↦ inl (ground arith)
  | inr fails ↦ inr (ground arith)
]

-- How booking rows can end.
pub data Booking (rows : List ReserveRow) (db : Database) (out : Result Error (Unit {0}) × Database)
    : Type 0 where
  failed : (e : Error) (after : Database) → out ≡ (err e, after) → Booking rows db out
  booked : out ≡ (ok tt, with_entries rows db) → Booking rows db out

then-Booking :
    (now : ℕ) (e : ReserveEntry) (es : List ReserveEntry) (db : Database)
    → put_entry (to_reserve_row now e) db ≡ (ok tt, with_entries (to_reserve_row now e ∷ []) db)
    → Booking
        (map (to_reserve_row now) es)
        (with_entries (to_reserve_row now e ∷ []) db)
        (append now es (with_entries (to_reserve_row now e ∷ []) db))
    → Booking (map (to_reserve_row now) (e ∷ es)) db (append now (e ∷ es) db)
unfolding append
then-Booking now e es db h (failed x after g) = failed x after (ground arith)
then-Booking now e es db h (booked g) = booked (
    ground (
      arith,
      append_assoc db.ledger_entries (to_reserve_row now e ∷ []) (map (to_reserve_row now) es),
    ))

pub append-Booking :
    (now : ℕ) (es : List ReserveEntry) (db : Database)
    → Booking (map (to_reserve_row now) es) db (append now es db)
unfolding append
append-Booking now [] db = booked (ground (arith, append-nil db.ledger_entries))
append-Booking now (e ∷ es) db = elim (put_entry-cases (to_reserve_row now e) db) [
  | inl h ↦
      then-Booking now e es db h
        (append-Booking now es (with_entries (to_reserve_row now e ∷ []) db))
  | inr h ↦ failed database db (ground arith)
]
