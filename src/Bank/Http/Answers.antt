-- ===== src/Bank/Http/Answers.antt =====
-- What an answer of the HTTP interface says about the ledger.
use distributed_payment_ledg.Prelude.{
  ℕ, String, ◌≤◌, ◌≡◌, refl, sym, ap, subst, ◌∙◌, ◌⊎◌, inl, inr, false, ◌||◌, Option, none, some,
  arith, ◌==◌, nat_Eq, text_Eq, ltb, count, Bool-cases,
}
use distributed_payment_ledg.Exec.{Result, ok, err, Result-cases}
use distributed_payment_ledg.Money.{Money, integer, IsSafe, from_cents}
use distributed_payment_ledg.Money.Laws.{from_cents-ok}
use distributed_payment_ledg.Bank.Domain.{
  DomainError, Error, domain, invalid_amount, self_transfer, insufficient_funds, account_not_found,
  transfer_not_found, idempotency_conflict,
}
use distributed_payment_ledg.Bank.Database.{Database}
use distributed_payment_ledg.Bank.Transfers.{TransferRecord, TransferParams, Draw, Others}
use distributed_payment_ledg.Bank.Transfers
use distributed_payment_ledg.Bank.Transfers.Execution.{
  Execution, execute-Execution, replay_winner-reads,
}
use distributed_payment_ledg.Bank.Transfers.Retry.{IsStored}
use distributed_payment_ledg.Bank.Http.{
  CreateTransferDto, TransferResponse, Answer, success, failure, thrown, error_status, status_of,
  create_transfer, params_of, to_response, respond,
}

-- Every domain error is answered with a status between 400 and 499.
pub status_of-client : (e : DomainError) → (400 ≤ status_of e) × (status_of e ≤ 499)
unfolding status_of
status_of-client (invalid_amount e) = ground arith
status_of-client self_transfer = ground arith
status_of-client (insufficient_funds a) = ground arith
status_of-client (account_not_found a) = ground arith
status_of-client (transfer_not_found a) = ground arith
status_of-client idempotency_conflict = ground arith

-- The states that only other requests have written to.
abbrev pub IsUntouched : Others → Database → Database → Type 0
IsUntouched others db after =
    (after ≡ db)
    ⊎ ((after ≡ others.before_begin db) ⊎ (after ≡ others.after_rollback (others.before_begin db)))

module _ (key : String) (params : TransferParams) (draw : Draw) (others : Others)
    (db : Database) where
  throwing :
      {e : Error} {after : Database} {out : Result Error TransferRecord × Database}
      → Execution key params draw others db out
      → out ≡ (err e, after)
      → IsUntouched others db after
  throwing (Execution.refused e h) k = inl (ground arith)
  throwing (Execution.replayed t r made found same h) k = absurd (ground arith)
  throwing (Execution.aborted e h) k = inr (inl (ground arith))
  throwing (Execution.raced t made taken h) k = inr (
      inr (
        sym (ap (λ o. o.1) (sym h ∙ k))
        ∙ replay_winner-reads key t (others.after_rollback (others.before_begin db))))
  throwing (Execution.posted t made p covered h) k = absurd (ground arith)

module _ (header : Option String) (body : CreateTransferDto) (draw : Draw) (others : Others)
    (db after : Database) where
  -- What a request that reaches the service is.
  record IsServed (key : String) (amount : Money) : Type 0 where
    has_key : header ≡ some key
    exact : body.amount_cents ≡ integer amount.cents
    safe : IsSafe amount.cents

  -- A request is answered at once, and nothing is written; or the service answers it.
  data Serving (out : Answer TransferResponse × Database) : Type 0 where
    refused : (s : ℕ) → out ≡ (failure s, db) → Serving out
    failed :
        (key : String) (amount : Money) (e : Error) (d : Database) (s : ℕ)
        → IsServed key amount
        → Transfers.execute key (params_of body amount) draw others db ≡ (err e, d)
        → out ≡ (failure s, d)
        → Serving out
    served :
        (key : String) (amount : Money) (r : TransferRecord) (d : Database)
        → IsServed key amount
        → Transfers.execute key (params_of body amount) draw others db ≡ (ok r, d)
        → out ≡ (success (to_response r), d)
        → Serving out

  in_service :
      (key : String) (amount : Money)
      → (count key == 0 || ltb 255 (count key)) ≡ false
      → from_cents body.amount_cents ≡ ok amount
      → IsServed key amount
      → (out : Result Error TransferRecord × Database)
      → Transfers.execute key (params_of body amount) draw others db ≡ out
      → header ≡ some key
      → Serving (respond (create_transfer header body draw others) db)
  unfolding create_transfer
  in_service key amount fits read s (ok r, d) h k = served key amount r d s h (ground arith)
  in_service key amount fits read s (err e, d) h k =
      failed key amount e d (error_status (thrown e)) s h (ground arith)

  keyed :
      (h : Option String)
      → header ≡ h
      → Serving (respond (create_transfer header body draw others) db)
  unfolding create_transfer
  keyed none h = refused 400 (ground arith)
  keyed (some key) h = elim (Bool-cases (count key == 0 || ltb 255 (count key))) [
    | inl bad ↦ refused 400 (ground arith)
    | inr fits ↦ elim (Result-cases (from_cents body.amount_cents)) [
      | inr (e, f) ↦ refused (error_status (thrown (domain (invalid_amount e)))) (ground arith)
      | inl (amount, read) ↦
          let (exact, safe) = from_cents-ok body.amount_cents amount read in
          in_service key amount fits read (record { has_key = h; exact = exact; safe = safe })
            (Transfers.execute key (params_of body amount) draw others db) refl h
    ]
  ]

  failing :
      (s : ℕ) {out : Answer TransferResponse × Database}
      → Serving out
      → out ≡ (failure s, after)
      → IsUntouched others db after
  failing s (refused t h) k = inl (ground arith)
  failing s (failed key amount e d t is h g) k = subst (IsUntouched others db) (ground arith) (
      throwing key (params_of body amount) draw others db
        (execute-Execution key (params_of body amount) draw others db is.safe) h)
  failing s (served key amount r d is h g) k = absurd (ground arith)

  -- A transfer request that is answered with an error has written nothing: the state is the one
  -- that it found, or one that other requests left.
  pub create_transfer-failure :
      (s : ℕ)
      → respond (create_transfer header body draw others) db ≡ (failure s, after)
      → IsUntouched others db after
  create_transfer-failure s h = failing s (keyed header refl) h

  -- What a success promises of its key.
  pub record IsCreated (a : TransferResponse) : Type 0 where
    pub key : String
    pub amount : Money
    pub stored : TransferRecord
    pub has_key : header ≡ some key
    pub exact : body.amount_cents ≡ integer amount.cents
    pub is_stored : IsStored key (params_of body amount) stored after
    pub shows : a ≡ to_response stored
