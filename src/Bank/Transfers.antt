-- ===== src/Bank/Transfers.antt =====
-- Local transfers (src/transfers): the repository and the service.
pub mod Insertion
pub mod Lookup
pub mod Booking
pub mod Execution
pub mod Retry
pub mod Stored
pub mod Locking
use distributed_payment_ledg.Prelude.{
  ℕ, String, Bool, true, false, not, ◌&&◌, Option, none, some, List, [], ◌∷◌, map, ◌==◌, text_Eq,
  if◌then◌else◌, find,
}
use distributed_payment_ledg.Prelude.Texts.{sort_pair}
use distributed_payment_ledg.Exec.{
  Result, ok, err, map_err, Ending, commit, rollback, transaction, pure, throw, throw_if, gets,
  modify, ◌>>=◌, ◌>>◌,
}
use distributed_payment_ledg.Money.{Money, integer, from_cents, equals}
use distributed_payment_ledg.Bank.Domain.{
  DomainError, Transfer, database, vanished, invalid_amount, account_not_found, transfer_not_found,
  idempotency_conflict, create, entries, assert_payer_can_afford,
}
use distributed_payment_ledg.Bank.Database.{
  TransferRow, Database, has_account, has_key, has_id, transfer_checks, Action, raise, raise_unless,
  put_transfer,
}
use distributed_payment_ledg.Bank.Posting.{row_of}
use distributed_payment_ledg.Bank.Ledger.{balance_of, append}

pub record TransferRecord : Type 0 where
  pub id : String
  pub payer_account_id : String
  pub payee_account_id : String
  pub amount : Money
  pub created_at : ℕ

abbrev pub with_amount : TransferRow → Money → TransferRecord
with_amount row amount = record {
  id = row.id;
  payer_account_id = row.payer_account_id;
  payee_account_id = row.payee_account_id;
  amount = amount;
  created_at = row.created_at;
}

-- `toRecord`, which reads the amount through `Money.fromCents`.
unfoldable pub to_record : TransferRow → Result DomainError TransferRecord
to_record row = elim (from_cents (integer row.amount)) [
  | ok amount ↦ ok (with_amount row amount)
  | err e ↦ err (invalid_amount e)
]

-- What `RETURNING` gives back for a row that was written.
abbrev insert_row : TransferRow → Action (Option TransferRecord)
insert_row row = do put_transfer row; r ← raise (to_record row); pure (some r)

-- `insert … ON CONFLICT (idempotency_key) DO NOTHING`
unfoldable pub insert : Transfer → String → ℕ → Action (Option TransferRecord)
insert t key now = do
  throw_if (not (transfer_checks (row_of t key now))) database
  taken ← gets (λ db. find (has_key key) db.transfers)
  elim taken [ some _ ↦ pure none | none ↦ insert_row (row_of t key now) ]

abbrev to_record? : Option TransferRow → Action (Option TransferRecord)
to_record? none = pure none
to_record? (some row) = do r ← raise (to_record row); pure (some r)

unfoldable pub find_by_idempotency_key : String → Action (Option TransferRecord)
find_by_idempotency_key key = do row ← gets (λ db. find (has_key key) db.transfers); to_record? row

unfoldable pub find_by_id : String → Action (Option TransferRecord)
find_by_id id = do row ← gets (λ db. find (has_id id) db.transfers); to_record? row

pub record TransferParams : Type 0 where
  pub payer_account_id : String
  pub payee_account_id : String
  pub amount : Money

-- What a request draws from outside: `randomUUID()` and the database's `now()`.
pub record Draw : Type 0 where
  pub uuid : String
  pub now : ℕ

-- What other requests commit between the statements that a request sends outside a transaction.
pub record Others : Type 0 where
  pub before_begin : Database → Database
  pub after_rollback : Database → Database

-- `accounts.lockById`: whether the row was there to lock.
abbrev pub lock_by_id : String → Action Bool
lock_by_id id = gets (has_account id)

pub lock_all : List String → Action (Unit {0})
lock_all [] = pure tt
lock_all (id ∷ ids) = do
  found ← lock_by_id id
  raise_unless found (account_not_found id)
  lock_all ids

-- `lockAccounts`
unfoldable pub lock_accounts : Transfer → Action (Unit {0})
unfolding lock_all
lock_accounts t = lock_all (sort_pair t.payer_account_id t.payee_account_id)

abbrev pub matches : TransferRecord → Transfer → Bool
matches existing attempted =
    existing.payer_account_id == attempted.payer_account_id
    && existing.payee_account_id == attempted.payee_account_id
    && equals existing.amount attempted.amount

-- `replay`
unfoldable pub replay : TransferRecord → Transfer → Result DomainError TransferRecord
replay existing attempted =
    if matches existing attempted then ok existing else err idempotency_conflict

-- The payer's balance is read and the entries are appended.
unfoldable pub settle_payer : Transfer → ℕ → Action (Unit {0})
settle_payer t now = do
  balance ← balance_of t.payer_account_id
  raise (assert_payer_can_afford t balance)
  es ← raise (entries t)
  append now es

-- The body of the transaction of `execute`.
unfoldable pub book_transfer : Transfer → String → ℕ → Action (Ending (Option TransferRecord))
unfolding settle_payer
book_transfer t key now = do
  lock_accounts t
  inserted ← insert t key now
  elim inserted [
    | none ↦ pure (rollback none)
    | some r ↦ settle_payer t now >> pure (commit (some r))
  ]

-- After the race on the key was lost.
unfoldable pub replay_winner : String → Transfer → Action TransferRecord
replay_winner key t = do
  winner ← find_by_idempotency_key key
  elim winner [ none ↦ throw (vanished key) | some w ↦ raise (replay w t) ]

unfoldable pub execute : String → TransferParams → Draw → Others → Action TransferRecord
unfolding replay_winner
execute key params draw others = do
  t ← raise (create draw.uuid params.payer_account_id params.payee_account_id params.amount)
  existing ← find_by_idempotency_key key
  elim existing [
    | some r ↦ raise (replay r t)
    | none ↦ do
      modify others.before_begin
      booked ← transaction (book_transfer t key draw.now)
      elim booked [ some r ↦ pure r | none ↦ modify others.after_rollback >> replay_winner key t ]
  ]

unfoldable pub get_transfer : String → Action TransferRecord
get_transfer id = do
  r ← find_by_id id
  elim r [ none ↦ raise (err (transfer_not_found id)) | some t ↦ pure t ]
