-- ===== src/Bank/Transfers/Execution.antt =====
-- How `TransfersService.execute` can end, with other requests in between.
use distributed_payment_ledg.Prelude.{
  String, ◌≡◌, ◌≢◌, ◌∙◌, ap, inl, inr, Option, none, some, arith, find,
}
use distributed_payment_ledg.Prelude.Int.{◌≤ℤ◌}
use distributed_payment_ledg.Exec.{Result, ok, err, transaction, Result-cases}
use distributed_payment_ledg.Money.{Money, IsSafe}
use distributed_payment_ledg.Bank.Domain.{Error, Transfer, domain, create}
use distributed_payment_ledg.Bank.Ledger.{sum_of}
use distributed_payment_ledg.Bank.Posting.{row_of, post, IsPostable}
use distributed_payment_ledg.Bank.Transfers.Insertion.{record_of}
use distributed_payment_ledg.Bank.Database.{Database, has_key}
use distributed_payment_ledg.Bank.Transfers.{
  TransferRecord, replay, Draw, Others, TransferParams, book_transfer, find_by_idempotency_key,
  replay_winner, execute,
}
use distributed_payment_ledg.Bank.Transfers.Booking.{Booking, book_transfer-Booking}

-- A lookup by key only reads.
pub find_by_idempotency_key-reads :
    (key : String) (db : Database) → (find_by_idempotency_key key db).1 ≡ db
unfolding find_by_idempotency_key
find_by_idempotency_key-reads key db = ground arith

pub create-amount :
    (id payer payee : String) (amount : Money) (t : Transfer)
    → create id payer payee amount ≡ ok t
    → t.amount ≡ amount
unfolding create
create-amount id payer payee amount t h = ground arith

pub replay_winner-reads :
    (key : String) (t : Transfer) (db : Database) → (replay_winner key t db).1 ≡ db
unfolding replay_winner find_by_idempotency_key
replay_winner-reads key t db = ground arith

-- A replay returns the record that it was given.
pub replay-same :
    (r : TransferRecord) (t : Transfer) (a : TransferRecord) → replay r t ≡ ok a → a ≡ r
unfolding replay
replay-same r t a h = ground arith

module _ (key : String) (params : TransferParams) (draw : Draw) (others : Others)
    (db : Database) where
  abbrev begun : Database
  begun = others.before_begin db

  -- How `execute` can end.
  pub data Execution (out : Result Error TransferRecord × Database) : Type 0 where
    refused : (e : Error) → out ≡ (err e, db) → Execution out
    replayed :
        (t : Transfer) (r : TransferRecord)
        → create draw.uuid params.payer_account_id params.payee_account_id params.amount ≡ ok t
        → find_by_idempotency_key key db ≡ (ok (some r), db)
        → replay r t ≡ ok r
        → out ≡ (ok r, db)
        → Execution out
    aborted : (e : Error) → out ≡ (err e, begun) → Execution out
    raced :
        (t : Transfer)
        → create draw.uuid params.payer_account_id params.payee_account_id params.amount ≡ ok t
        → find (has_key key) begun.transfers ≢ none
        → out ≡ replay_winner key t (others.after_rollback begun)
        → Execution out
    posted :
        (t : Transfer)
        → create draw.uuid params.payer_account_id params.payee_account_id params.amount ≡ ok t
        → IsPostable (row_of t key draw.now) begun
        → t.amount.cents ≤ℤ sum_of t.payer_account_id begun.ledger_entries
        → out ≡ (ok (record_of t draw.now), post (row_of t key draw.now) begun)
        → Execution out

  module _ (t : Transfer)
      (made : create draw.uuid params.payer_account_id params.payee_account_id params.amount
        ≡ ok t) where
    in_transaction :
        find_by_idempotency_key key db ≡ (ok none, db)
        → Booking key t draw.now begun (transaction (book_transfer t key draw.now) begun)
        → Execution (execute key params draw others db)
    unfolding execute
    in_transaction unused (Booking.failed e h) = aborted e (ground arith)
    in_transaction unused (Booking.lost h k) = raced t made k (ground arith)
    in_transaction unused (Booking.booked p covered h) = posted t made p covered (ground arith)

    after_create :
        IsSafe t.amount.cents
        → (r : Result Error (Option TransferRecord)) → find_by_idempotency_key key db ≡ (r, db)
        → Execution (execute key params draw others db)
    unfolding execute
    after_create safe (err e) h = refused e (ground arith)
    after_create safe (ok none) h =
        in_transaction h (book_transfer-Booking key t draw.now begun safe)
    after_create safe (ok (some r)) h = elim (Result-cases (replay r t)) [
      | inl (a, same) ↦
          replayed t r made h (same ∙ ap ok (replay-same r t a same))
            (ground (arith, replay-same r t a same))
      | inr (e, differs) ↦ refused (domain e) (ground arith)
    ]

  -- If the amount of a request is a safe integer, `execute` either throws and changes nothing; or
  -- answers with the stored record of its key, which agrees with the request, and changes nothing;
  -- or aborts its transaction and leaves only what others committed; or answers as the winner of a
  -- race on its key says; or books a transfer that the payer can afford, and nothing else.
  pub execute-Execution : IsSafe params.amount.cents → Execution (execute key params draw others db)
  unfolding execute
  execute-Execution safe =
      elim (Result-cases
        (create draw.uuid params.payer_account_id params.payee_account_id params.amount)) [
          | inr (e, h) ↦ refused (domain e) (ground arith)
          | inl (t, h) ↦
              after_create t h (rw (create-amount _ _ _ _ t h) safe)
                (find_by_idempotency_key key db).0
                (ground (arith, find_by_idempotency_key-reads key db))
        ]
