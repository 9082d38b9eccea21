-- ===== src/Bank/Transfers/Stored.antt =====
-- A transfer request that succeeds leaves its record stored under its key.
use distributed_payment_ledg.Prelude.{
  ℕ, String, ◌≡◌, refl, sym, ◌∙◌, ap, subst, Option, none, some, arith, find, find-append_none,
  text_Eq, eq_refl,
}
use distributed_payment_ledg.Exec.{Result, ok, err}
use distributed_payment_ledg.Money.{IsSafe}
use distributed_payment_ledg.Bank.Domain.{Error}
use distributed_payment_ledg.Bank.Database.{Database, has_key}
use distributed_payment_ledg.Bank.Transfers.{
  TransferRecord, Draw, Others, TransferParams, find_by_idempotency_key, replay, replay_winner,
}
use distributed_payment_ledg.Bank.Posting.{row_of, post}
use distributed_payment_ledg.Bank.Transfers.Insertion.{record_of, to_record-row_of}
use distributed_payment_ledg.Bank.Transfers.Execution.{
  Execution, refused, replayed, aborted, raced, posted, replay-same, find_by_idempotency_key-reads,
}
use distributed_payment_ledg.Bank.Transfers.Retry.{
  Agrees, IsWellFormed, transfer_for, IsStored, replay-ok, create-ok, find_by_idempotency_key-some,
}

module _ (key : String) (params : TransferParams) where
  IsStored-replay :
      (uuid : String) (r a : TransferRecord) (db : Database) {d : Database}
      → find_by_idempotency_key key db ≡ (ok (some r), d)
      → replay r (transfer_for uuid params) ≡ ok a
      → IsStored key params a db
  IsStored-replay uuid r a db h same =
      let (row, found, read) = find_by_idempotency_key-some key db r h in
      record {
        row = row;
        found = found;
        read = read ∙ ap ok (sym (replay-same r (transfer_for uuid params) a same));
        agrees =
            subst (λ x. Agrees x params) (sym (replay-same r (transfer_for uuid params) a same))
              (replay-ok r uuid params same);
      }

  IsStored-winner :
      (uuid : String) (r : TransferRecord) (db d : Database)
      → (found : Result Error (Option TransferRecord))
      → find_by_idempotency_key key db ≡ (found, db)
      → replay_winner key (transfer_for uuid params) db ≡ (ok r, d)
      → (d ≡ db) × IsStored key params r db
  unfolding replay_winner
  IsStored-winner uuid r db d (err e) h k = ground arith
  IsStored-winner uuid r db d (ok none) h k = ground arith
  IsStored-winner uuid r db d (ok (some w)) h k =
      (ground arith, IsStored-replay uuid w r db h (ground arith))

  IsStored-moved :
      {a r : TransferRecord} {db d : Database}
      → IsStored key params a db
      → ◌≡◌ {A = Result Error TransferRecord × Database} (ok a, db) (ok r, d)
      → IsStored key params r d
  IsStored-moved {a} {r} {db} {d} s e =
      subst (λ x. IsStored key params x d) (ground arith)
        (subst (λ x. IsStored key params a x) (ground arith) s)

  -- A transfer just posted is stored under its key.
  IsStored-posted :
      (uuid : String) (now : ℕ) (db : Database)
      → IsSafe params.amount.cents
      → find (has_key key) db.transfers ≡ none
      → IsStored key params
          (record_of (transfer_for uuid params) now)
          (post (row_of (transfer_for uuid params) key now) db)
  IsStored-posted uuid now db safe free = record {
    row = row_of (transfer_for uuid params) key now;
    found = find-append_none (has_key key) db.transfers _ free ∙ ground (arith, eq_refl key);
    read = to_record-row_of (transfer_for uuid params) key now safe;
    agrees = (refl, refl, refl);
  }

  -- A request that succeeds leaves its record stored under its key.
  pub Execution-IsStored :
      (draw : Draw) (others : Others) (db : Database) (r : TransferRecord) (d : Database)
      {out : Result Error TransferRecord × Database}
      → IsSafe params.amount.cents
      → Execution key params draw others db out
      → out ≡ (ok r, d)
      → IsWellFormed params × IsStored key params r d
  Execution-IsStored draw others db r d safe (refused e h) k = absurd (ground arith)
  Execution-IsStored draw others db r d safe (aborted e h) k = absurd (ground arith)
  Execution-IsStored draw others db r d safe (replayed t a made found same h) k =
      let (is_t, w) = create-ok draw.uuid params t made in
      (
        w,
        IsStored-moved
            (IsStored-replay draw.uuid a a db found (subst (λ x. replay a x ≡ ok a) is_t same))
            (sym h ∙ k),
      )
  Execution-IsStored draw others db r d safe (raced t made taken h) k =
      let (is_t, w) = create-ok draw.uuid params t made in
      let after : Database = others.after_rollback (others.before_begin db) in
      let (same, stored) =
        IsStored-winner draw.uuid r after d (find_by_idempotency_key key after).0
          (ground (arith, find_by_idempotency_key-reads key after))
          (subst (λ x. replay_winner key x after ≡ (ok r, d)) is_t (sym h ∙ k)) in
      (w, subst (IsStored key params r) (sym same) stored)
  Execution-IsStored draw others db r d safe (posted t made p covered h) k =
      let (is_t, w) = create-ok draw.uuid params t made in
      (
        w,
        IsStored-moved
            (IsStored-posted draw.uuid draw.now (others.before_begin db) safe p.fresh_key)
            (subst
              (λ x.
                ◌≡◌ {A = Result Error TransferRecord × Database}
                  (ok (record_of x draw.now), post (row_of x key draw.now) (others.before_begin db))
                  (ok r, d))
              is_t (sym h ∙ k)),
      )
