-- ===== src/Bank/Interbank/Answered.antt =====
-- What a request is answered with is what a later query of the transfer returns.
use distributed_payment_ledg.Prelude.{
  ℕ, String, ◌≡◌, sym, subst, List, ◌∙◌, inl, inr, false, Option, none, some, [], ◌∷◌, ◌++◌, arith,
  text_Eq, eq_refl, exists, find, find-append_none, find-none_of_exists, All-find, Bool-cases,
  Option-cases,
}
use distributed_payment_ledg.Exec.{Result, ok, err}
use distributed_payment_ledg.Money.{IsSafe}
use distributed_payment_ledg.Bank.Domain.{Error, Transfer}
use distributed_payment_ledg.Bank.Database.{
  TransferRow, Database, InterbankTransferRecord, has_id, has_key, is_for,
}
use distributed_payment_ledg.Bank.Posting.{row_of, post, IsPostable}
use distributed_payment_ledg.Bank.Posting.Book.{find-posted}
use distributed_payment_ledg.Bank.Transfers.{
  TransferRecord, Draw, Others, matches, to_record, find_by_idempotency_key,
}
use distributed_payment_ledg.Bank.Transfers
use distributed_payment_ledg.Bank.Transfers.Execution.{find_by_idempotency_key-reads, create-amount}
use distributed_payment_ledg.Bank.Transfers.Insertion.{record_of, to_record-row_of}
use distributed_payment_ledg.Bank.Transfers.Lookup.{to_record-IsRecordOf}
use distributed_payment_ledg.Bank.Transfers.Retry.{find_by_idempotency_key-some}
use distributed_payment_ledg.Bank.Interbank.{
  InterbankTransferParams, InterbankTransferResult, Config, find_by_id, same_payee, replay,
  replay_winner, execute, get_transfer,
}
use distributed_payment_ledg.Bank.Interbank.Opening.{accompanied, companion, result_of}
use distributed_payment_ledg.Bank.Interbank.Execution.{Execution, execute-Execution}
use distributed_payment_ledg.Bank.Invariant.Unique.{IsFoundIn, IsUnique}

-- A query of the transfer returns this result.
abbrev IsAnswered : InterbankTransferResult → Database → Type 0
IsAnswered result db = get_transfer result.transfer.id db ≡ (ok result, db)

module _ (db : Database) where
  find_by_id-row :
      (row : TransferRow) (r : TransferRecord)
      → find (has_id r.id) db.transfers ≡ some row
      → to_record row ≡ ok r
      → Transfers.find_by_id r.id db ≡ (ok (some r), db)
  unfolding Transfers.find_by_id
  find_by_id-row row r found read = ground arith

  -- A row that was found by its key is found by its id.
  find_by_id-keyed :
      (key : String) (r : TransferRecord)
      → IsUnique db
      → find_by_idempotency_key key db ≡ (ok (some r), db)
      → Transfers.find_by_id r.id db ≡ (ok (some r), db)
  find_by_id-keyed key r unique h =
      let (row, found, read) = find_by_idempotency_key-some key db r h in
      let by_id : IsFoundIn db.transfers row =
        All-find (IsFoundIn db.transfers) (has_key key) db.transfers unique found in
      find_by_id-row row r
        (subst (λ id. find (has_id id) db.transfers ≡ some row)
          (sym (to_record-IsRecordOf row r read).same_id) by_id.0)
        read

  get_transfer-found :
      (r : TransferRecord) (row : InterbankTransferRecord)
      → Transfers.find_by_id r.id db ≡ (ok (some r), db)
      → find (is_for r.id) db.interbank_transfers ≡ some row
      → get_transfer r.id db ≡ (ok (record { transfer = r; interbank = row }), db)
  unfolding get_transfer find_by_id
  get_transfer-found r row h found = ground arith

  replay-IsAnswered :
      (r : TransferRecord) (t : Transfer) (params : InterbankTransferParams) (after : Database)
      (result : InterbankTransferResult)
      → Transfers.find_by_id r.id db ≡ (ok (some r), db)
      → replay r t params db ≡ (ok result, after)
      → IsAnswered result after
  unfolding replay find_by_id
  replay-IsAnswered r t params after result read h = elim (Bool-cases (matches r t)) [
    | inr differs ↦ absurd (ground arith)
    | inl same ↦ elim (Option-cases (find (is_for r.id) db.interbank_transfers)) [
      | inl missing ↦ absurd (ground arith)
      | inr (row, found) ↦ elim (Bool-cases (same_payee (some row) params)) [
        | inr other ↦ absurd (ground arith)
        | inl fits ↦ ground (arith, get_transfer-found r row read found)
      ]
    ]
  ]

  replay_winner-IsAnswered :
      (key : String) (t : Transfer) (params : InterbankTransferParams) (after : Database)
      (result : InterbankTransferResult)
      → IsUnique db
      → replay_winner key t params db ≡ (ok result, after)
      → IsAnswered result after
  unfolding replay_winner
  replay_winner-IsAnswered key t params after result unique h =
      go (find_by_idempotency_key key db).0 (ground (arith, find_by_idempotency_key-reads key db))
    where
      go :
          (r : Result Error (Option TransferRecord))
          → find_by_idempotency_key key db ≡ (r, db)
          → IsAnswered result after
      go (err e) k = absurd (ground arith)
      go (ok none) k = absurd (ground arith)
      go (ok (some w)) k =
          replay-IsAnswered w t params after result (find_by_id-keyed key w unique k) (ground arith)

find-companion :
    (rows : List InterbankTransferRecord) (row : InterbankTransferRecord)
    → exists (is_for row.transfer_id) rows ≡ false
    → find (is_for row.transfer_id) (rows ++ row ∷ []) ≡ some row
find-companion rows row fresh =
    find-append_none (is_for row.transfer_id) rows (row ∷ [])
      (find-none_of_exists (is_for row.transfer_id) rows fresh)
    ∙ ground (arith, eq_refl row.transfer_id)

module _ (t : Transfer) (key : String) (params : InterbankTransferParams) (now : ℕ)
    (bank_id : String) (db : Database) where
  abbrev opened : Database
  opened = accompanied t params now bank_id (post (row_of t key now) db)

  opened-IsAnswered :
      IsSafe t.amount.cents
      → IsPostable (row_of t key now) db
      → exists (is_for t.id) db.interbank_transfers ≡ false
      → IsAnswered (result_of t params now) opened
  opened-IsAnswered safe p fresh =
      get_transfer-found opened (record_of t now) (companion t params now)
        (find_by_id-row opened (row_of t key now) (record_of t now)
          (find-posted (row_of t key now) db p.fresh_id) (to_record-row_of t key now safe))
        (find-companion db.interbank_transfers (companion t params now) fresh)

  opened-moved :
      {result : InterbankTransferResult} {after : Database}
      → IsAnswered (result_of t params now) opened
      → ◌≡◌ {A = Result Error InterbankTransferResult × Database}
          (ok (result_of t params now), opened)
          (ok result, after)
      → IsAnswered result after
  opened-moved {result} {after} h e =
      subst (λ x. IsAnswered x after) (ground arith)
        (subst (λ x. IsAnswered (result_of t params now) x) (ground arith) h)

module _ (key : String) (params : InterbankTransferParams) (draw : Draw) (others : Others)
    (config : Config) (db : Database) (unique : IsUnique db)
    (rolled_back : IsUnique (others.after_rollback (others.before_begin db))) (after : Database)
    (result : InterbankTransferResult) where
  executed-IsAnswered :
      {out : Result Error InterbankTransferResult × Database}
      → IsSafe params.amount.cents
      → Execution key params draw others config db out
      → out ≡ (ok result, after)
      → IsAnswered result after
  executed-IsAnswered safe (Execution.refused e h) k = absurd (ground arith)
  executed-IsAnswered safe (Execution.replayed r t stored h) k =
      replay-IsAnswered db r t params after result (find_by_id-keyed db key r unique stored)
        (sym h ∙ k)
  executed-IsAnswered safe (Execution.aborted e h) k = absurd (ground arith)
  executed-IsAnswered safe (Execution.raced t h) k =
      replay_winner-IsAnswered (others.after_rollback (others.before_begin db)) key t params after
        result rolled_back (sym h ∙ k)
  executed-IsAnswered safe (Execution.requested t bank_id made set fresh p covered h) k =
      opened-moved t key params draw.now bank_id (others.before_begin db)
        (opened-IsAnswered t key params draw.now bank_id (others.before_begin db)
          (rw (create-amount _ _ _ _ t made) safe) p fresh)
        (sym h ∙ k)

  -- If ids and keys name one transfer each, before the request and after its transaction was rolled
  -- back, and the amount is safe, then what a successful request for a transfer to another bank is
  -- answered with is what a query by its id then returns.
  pub execute-get_transfer :
      IsSafe params.amount.cents
      → execute key params draw others config db ≡ (ok result, after)
      → get_transfer result.transfer.id after ≡ (ok result, after)
  execute-get_transfer safe h =
      executed-IsAnswered safe (execute-Execution key params draw others config db safe) h
