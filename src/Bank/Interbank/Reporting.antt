-- ===== src/Bank/Interbank/Reporting.antt =====
-- The status that the answers about a transfer to another bank report.
use distributed_payment_ledg.Prelude.{
  String, ◌≡◌, ◌≢◌, sym, ap, ◌∙◌, inl, inr, Option, none, some, arith, find, find_holds, eq_iff,
  text_Eq, Bool-cases, Option-cases,
}
use distributed_payment_ledg.Exec.{Result, ok, err}
use distributed_payment_ledg.Money.{IsSafe}
use distributed_payment_ledg.Bank.Domain.{Error, Transfer}
use distributed_payment_ledg.Bank.Database.{
  Database, Status, InterbankTransferRecord, has_id, is_for,
}
use distributed_payment_ledg.Bank.Transfers.{
  TransferRecord, Draw, Others, matches, find_by_idempotency_key,
}
use distributed_payment_ledg.Bank.Transfers
use distributed_payment_ledg.Bank.Transfers.Lookup.{Lookup, find_by_id-Lookup}
use distributed_payment_ledg.Bank.Transfers.Execution.{find_by_idempotency_key-reads}
use distributed_payment_ledg.Bank.Interbank.{
  InterbankTransferParams, InterbankTransferResult, Config, find_by_id, same_payee, replay,
  replay_winner, execute, get_transfer,
}
use distributed_payment_ledg.Bank.Interbank.Execution.{Execution, execute-Execution}

-- The companion row of the transfer has the status.
abbrev pub IsAt : Database → String → Status → Type 0
IsAt db id status =
    (row : InterbankTransferRecord) × (find (is_for id) db.interbank_transfers ≡ some row)
    × (row.status ≡ status)

-- A result that shows a transfer as settled shows its companion row.
abbrev pub Reports : Database → InterbankTransferResult → Type 0
Reports db result =
    result.interbank.status ≢ Status.debited → IsAt db result.transfer.id result.interbank.status

replay-Reports :
    (r : TransferRecord) (t : Transfer) (params : InterbankTransferParams) (db after : Database)
    (result : InterbankTransferResult)
    → replay r t params db ≡ (ok result, after)
    → Reports after result
unfolding replay find_by_id
replay-Reports r t params db after result h final = elim (Bool-cases (matches r t)) [
  | inr differs ↦ absurd (ground arith)
  | inl same ↦ elim (Option-cases (find (is_for r.id) db.interbank_transfers)) [
    | inl missing ↦ absurd (ground arith)
    | inr (row, found) ↦ elim (Bool-cases (same_payee (some row) params)) [
      | inr other ↦ absurd (ground arith)
      | inl fits ↦ (row, ground arith, ground arith)
    ]
  ]
]

replay_winner-Reports :
    (key : String) (t : Transfer) (params : InterbankTransferParams) (db after : Database)
    (result : InterbankTransferResult)
    → replay_winner key t params db ≡ (ok result, after)
    → Reports after result
unfolding replay_winner
replay_winner-Reports key t params db after result h =
    go (find_by_idempotency_key key db).0 (ground (arith, find_by_idempotency_key-reads key db))
  where
    go :
        (r : Result Error (Option TransferRecord))
        → find_by_idempotency_key key db ≡ (r, db)
        → Reports after result
    go (err e) k = absurd (ground arith)
    go (ok none) k = absurd (ground arith)
    go (ok (some w)) k = replay-Reports w t params db after result (ground arith)

module _ (key : String) (params : InterbankTransferParams) (draw : Draw) (others : Others)
    (config : Config) (db after : Database) (result : InterbankTransferResult) where
  executed-Reports :
      {out : Result Error InterbankTransferResult × Database}
      → Execution key params draw others config db out
      → out ≡ (ok result, after)
      → Reports after result
  executed-Reports (Execution.refused e h) k = absurd (ground arith)
  executed-Reports (Execution.replayed r t stored h) k =
      replay-Reports r t params db after result (sym h ∙ k)
  executed-Reports (Execution.aborted e h) k = absurd (ground arith)
  executed-Reports (Execution.raced t h) k =
      replay_winner-Reports key t params (others.after_rollback (others.before_begin db)) after
        result (sym h ∙ k)
  executed-Reports (Execution.requested t bank_id made set fresh p covered h) k =
      λ final. absurd (final (ground arith))

  -- A transfer that `execute` answers with as settled is so in the database.
  pub execute-Reports :
      IsSafe params.amount.cents
      → execute key params draw others config db ≡ (ok result, after)
      → Reports after result
  execute-Reports safe h =
      executed-Reports (execute-Execution key params draw others config db safe) h

-- What `getTransfer` answers with is the transfer that was asked for, with its companion row.
pub get_transfer-IsAt :
    (id : String) (db after : Database) (result : InterbankTransferResult)
    → get_transfer id db ≡ (ok result, after)
    → (result.transfer.id ≡ id) × IsAt db id result.interbank.status
unfolding get_transfer find_by_id
get_transfer-IsAt id db after result h = go (find_by_id-Lookup db id)
  where
    go :
        Lookup (find (has_id id) db.transfers) db (Transfers.find_by_id id db)
        → (result.transfer.id ≡ id) × IsAt db id result.interbank.status
    go (Lookup.failed e k) = absurd (ground arith)
    go (Lookup.missing no_row k) = absurd (ground arith)
    go (Lookup.found stored r found read of_row k) =
        elim (Option-cases (find (is_for id) db.interbank_transfers)) [
          | inl none_there ↦ absurd (ground arith)
          | inr (row, there) ↦
              let whole : result ≡ record { transfer = r; interbank = row } = ground arith in
              (
                ap (λ (x : InterbankTransferResult). x.transfer.id) whole
                    ∙ of_row.same_id
                    ∙ (eq_iff stored.id id).0 (find_holds (has_id id) db.transfers found),
                (row, there, ap (λ (x : InterbankTransferResult). x.interbank.status) (sym whole)),
              )
        ]
