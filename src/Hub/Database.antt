-- ===== src/Hub/Database.antt =====
-- The tables of the Hub (hub/migrations/*.sql), with the checks that every statement runs through.
-- Rows stand in the order of their insertion. Times are the database's `now()`.
use distributed_payment_ledg.Prelude.{
  ℕ, String, Bool, true, false, not, ◌&&◌, ◌||◌, Option, none, some, List, [], ◌∷◌, ◌++◌, ◌==◌,
  text_Eq, leb, exists, count, if◌then◌else◌,
}
use distributed_payment_ledg.Prelude.Int.{ℤ, pos, ltb_ℤ, pos_part, neg_part}
use distributed_payment_ledg.Exec.{Result, ok, err, Exec, lift, map_err}
use distributed_payment_ledg.Money.{Number, integer, not_integer}
use distributed_payment_ledg.Outbox
use distributed_payment_ledg.Hub.Domain.{Bank, DomainError, Error, domain, database}

-- `SettlementStatus`
pub data Status : Type 0 where
  pending confirmed reversed rejected : Status

-- A row of `settlements`; `SettlementRecord` has the same fields.
pub record SettlementRecord : Type 0 where
  pub id : String
  pub payer_bank_id : String
  pub payee_bank_id : String
  pub payee_account_ref : String
  pub amount_cents : ℤ
  pub status : Status
  pub reject_reason : Option String
  pub created_at : ℕ
  pub updated_at : ℕ

-- A row of `hub_ledger_entries`.
pub record ReserveRow : Type 0 where
  pub settlement_id : String
  pub bank_id : String
  pub amount : ℤ
  pub created_at : ℕ

pub data Outcome : Type 0 where
  confirmed reversed rejected : Outcome

-- The payloads that the Hub publishes: `settlement.notify` and `settlement.outcome`.
pub data Event : Type 0 where
  notify : (settlement_id payer_bank_id payee_account_ref : String) → ℤ → ℕ → Event
  outcome : (settlement_id : String) → Outcome → Option String → Event

pub record Database : Type 0 where
  pub banks : List Bank
  pub ledger_entries : List ReserveRow
  pub settlements : List SettlementRecord
  pub outbox : Outbox.Table Event

abbrev pub has_bank : String → Database → Bool
has_bank id db = exists (λ b. b.id == id) db.banks

abbrev pub has_id : String → SettlementRecord → Bool
has_id id row = row.id == id

-- `length(t) BETWEEN 1 AND n`, in characters
abbrev pub length_within : ℕ → String → Bool
length_within n t = leb 1 (count t) && leb (count t) n

-- A number as a BIGINT parameter; any other value is refused.
abbrev pub max_bigint : ℕ
max_bigint = 9223372036854775807

abbrev pub to_bigint : Number → Option ℤ
to_bigint (integer z) =
    if leb (pos_part z) max_bigint && leb (neg_part z) max_bigint then some z else none
to_bigint not_integer = none

-- `status IN ('REJECTED', 'REVERSED')` exactly if there is a reason.
abbrev pub reason_fits : Status → Option String → Bool
reason_fits Status.pending none = true
reason_fits Status.confirmed none = true
reason_fits Status.reversed (some _) = true
reason_fits Status.rejected (some _) = true
reason_fits _ _ = false

-- The CHECK constraints of `settlements`.
unfoldable pub settlement_checks : SettlementRecord → Bool
settlement_checks row =
    length_within 64 row.payee_bank_id
    && length_within 255 row.payee_account_ref
    && ltb_ℤ (pos 0) row.amount_cents
    && not (row.payer_bank_id == row.payee_bank_id)
    && reason_fits row.status row.reject_reason

-- The check and the foreign key of `hub_ledger_entries`.
unfoldable pub entry_checks : ReserveRow → Database → Bool
entry_checks row db =
    (ltb_ℤ (pos 0) row.amount || ltb_ℤ row.amount (pos 0)) && has_bank row.bank_id db

-- A method of the service over this database.
abbrev pub Action {ℓ} : Type ℓ → Type ℓ
Action A = Exec Error Database A

-- A domain error that is thrown where a value is computed.
abbrev pub raise {ℓ} : {A : Type ℓ} → Result DomainError A → Action A
raise r = lift (map_err domain r)

-- `INSERT INTO hub_ledger_entries`
unfoldable pub put_entry : ReserveRow → Action (Unit {0})
put_entry row db =
    if entry_checks row db
    then (ok tt, record db { ledger_entries = db.ledger_entries ++ row ∷ [] })
    else (err database, db)
