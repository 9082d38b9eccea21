-- ===== src/Bank/Transfers/Retry.antt =====
-- Retrying a local transfer (the idempotency key of `execute`).
use distributed_payment_ledg.Prelude.{
  String, ◌≡◌, ◌≢◌, inl, inr, true, Option, some, arith, find, text_Eq, eq_iff, Bool-cases,
}
use distributed_payment_ledg.Exec.{Result, ok, err}
use distributed_payment_ledg.Money.{is_positive}
use distributed_payment_ledg.Money.Laws.{equals_iff}
use distributed_payment_ledg.Bank.Domain.{Error, Transfer, domain, idempotency_conflict, create}
use distributed_payment_ledg.Bank.Database.{TransferRow, Database, has_key}
use distributed_payment_ledg.Bank.Transfers.{
  TransferRecord, Draw, Others, TransferParams, to_record, find_by_idempotency_key, matches, replay,
  execute,
}
use distributed_payment_ledg.Bank.Transfers.Lookup.{Lookup, find_by_idempotency_key-Lookup}

-- The record agrees with the request.
abbrev pub Agrees : TransferRecord → TransferParams → Type 0
Agrees r params =
    (r.payer_account_id ≡ params.payer_account_id)
    × (r.payee_account_id ≡ params.payee_account_id)
    × (r.amount.cents ≡ params.amount.cents)

-- A request that `Transfer.create` accepts.
pub record IsWellFormed (params : TransferParams) : Type 0 where
  pub positive : is_positive params.amount ≡ true
  pub distinct : params.payer_account_id ≢ params.payee_account_id

abbrev pub transfer_for : String → TransferParams → Transfer
transfer_for uuid params = record {
  id = uuid;
  payer_account_id = params.payer_account_id;
  payee_account_id = params.payee_account_id;
  amount = params.amount;
}

pub create-IsWellFormed :
    (uuid : String) (params : TransferParams)
    → IsWellFormed params
    → create uuid params.payer_account_id params.payee_account_id params.amount
      ≡ ok (transfer_for uuid params)
unfolding create
create-IsWellFormed uuid params w =
    ground (arith, w.distinct, eq_iff params.payer_account_id params.payee_account_id)

pub replay-Agrees :
    (r : TransferRecord) (uuid : String) (params : TransferParams)
    → Agrees r params
    → replay r (transfer_for uuid params) ≡ ok r
unfolding replay
replay-Agrees r uuid params h = ground (
  arith,
  (eq_iff r.payer_account_id params.payer_account_id).1 h.0,
  (eq_iff r.payee_account_id params.payee_account_id).1 h.1,
  (equals_iff r.amount params.amount).1 h.2,
)

replay-differs :
    (r : TransferRecord) (uuid : String) (params : TransferParams)
    → ¬ Agrees r params
    → replay r (transfer_for uuid params) ≡ err idempotency_conflict
unfolding replay
replay-differs r uuid params h = elim (Bool-cases (matches r (transfer_for uuid params))) [
  | inr no_match ↦ rw no_match
  | inl match ↦ absurd (
      h (
        (eq_iff r.payer_account_id params.payer_account_id).0 (ground arith),
        (eq_iff r.payee_account_id params.payee_account_id).0 (ground arith),
        (equals_iff r.amount params.amount).0 (ground arith),
      ))
]

pub replay-ok :
    (r : TransferRecord) (uuid : String) (params : TransferParams) {a : TransferRecord}
    → replay r (transfer_for uuid params) ≡ ok a
    → Agrees r params
unfolding replay
replay-ok r uuid params h = (
  (eq_iff r.payer_account_id params.payer_account_id).0 (ground arith),
  (eq_iff r.payee_account_id params.payee_account_id).0 (ground arith),
  (equals_iff r.amount params.amount).0 (ground arith),
)

pub create-ok :
    (uuid : String) (params : TransferParams) (t : Transfer)
    → create uuid params.payer_account_id params.payee_account_id params.amount ≡ ok t
    → (t ≡ transfer_for uuid params) × IsWellFormed params
unfolding create
create-ok uuid params t h = (
  ground arith,
  record {
    positive = ground arith;
    distinct = λ e. ground (arith, (eq_iff params.payer_account_id params.payee_account_id).1 e);
  },
)

-- The key names a row whose record is `r`, and the request agrees with it.
pub record IsStored (key : String) (params : TransferParams) (r : TransferRecord) (db : Database)
    : Type 0 where
  pub row : TransferRow
  pub found : find (has_key key) db.transfers ≡ some row
  pub read : to_record row ≡ ok r
  pub agrees : Agrees r params

find_by_idempotency_key-stored :
    (key : String) (db : Database) (row : TransferRow) (r : TransferRecord)
    → find (has_key key) db.transfers ≡ some row
    → to_record row ≡ ok r
    → find_by_idempotency_key key db ≡ (ok (some r), db)
unfolding find_by_idempotency_key
find_by_idempotency_key-stored key db row r h k = ground arith

Lookup-some :
    {row : Option TransferRow} (r : TransferRecord) (db : Database) {d : Database}
    {out : Result Error (Option TransferRecord) × Database}
    → Lookup row db out
    → out ≡ (ok (some r), d)
    → (stored : TransferRow) × (row ≡ some stored) × (to_record stored ≡ ok r)
Lookup-some r db (Lookup.failed e h) k = absurd (ground arith)
Lookup-some r db (Lookup.missing no_row h) k = absurd (ground arith)
Lookup-some r db (Lookup.found stored r' e read of_row h) k = (stored, e, ground arith)

pub find_by_idempotency_key-some :
    (key : String) (db : Database) (r : TransferRecord) {d : Database}
    → find_by_idempotency_key key db ≡ (ok (some r), d)
    → (row : TransferRow) × (find (has_key key) db.transfers ≡ some row) × (to_record row ≡ ok r)
find_by_idempotency_key-some key db r h = Lookup-some r db (find_by_idempotency_key-Lookup db key) h

-- A stored request is answered with its record, and nothing is written.
pub execute-stored :
    (key : String) (params : TransferParams) (r : TransferRecord) (draw : Draw) (others : Others)
    (db : Database)
    → IsWellFormed params
    → IsStored key params r db
    → execute key params draw others db ≡ (ok r, db)
unfolding execute
execute-stored key params r draw others db w s = ground (
  arith,
  create-IsWellFormed draw.uuid params w,
  find_by_idempotency_key-stored key db s.row r s.found s.read,
  replay-Agrees r draw.uuid params s.agrees,
)

-- If the key of a well-formed request names a stored transfer that differs from it, the request
-- is refused as a conflict, and nothing is written.
pub execute-conflict :
    (key : String) (params : TransferParams) (row : TransferRow) (r : TransferRecord) (draw : Draw)
    (others : Others) (db : Database)
    → IsWellFormed params
    → find (has_key key) db.transfers ≡ some row
    → to_record row ≡ ok r
    → ¬ Agrees r params
    → execute key params draw others db ≡ (err (domain idempotency_conflict), db)
unfolding execute
execute-conflict key params row r draw others db w found read differs = ground (
  arith,
  create-IsWellFormed draw.uuid params w,
  find_by_idempotency_key-stored key db row r found read,
  replay-differs r draw.uuid params differs,
)
