-- ===== src/Bank/Invariant/Unique.antt =====
-- Ids and idempotency keys name at most one transfer.
use distributed_payment_ledg.Prelude.{
  ◌≡◌, ◌∙◌, some, List, [], ◌∷◌, ◌++◌, arith, eq_refl, All, All-append, All-map_lem, find,
  find-none_of_exists, find-append_some, find-append_none,
}
use distributed_payment_ledg.Bank.Database.{TransferRow, Database, has_id, has_key}
use distributed_payment_ledg.Bank.Posting.{post, IsPostable}
use distributed_payment_ledg.Bank.Step.{Step, Reach, here, next}

-- A lookup by the id, or by the key, of any row finds that row.
abbrev pub IsFoundIn : List TransferRow → TransferRow → Type 0
IsFoundIn rows row =
    (find (has_id row.id) rows ≡ some row) × (find (has_key row.idempotency_key) rows ≡ some row)

abbrev pub IsUnique : Database → Type 0
IsUnique db = All (IsFoundIn db.transfers) db.transfers

module _ (row : TransferRow) (db : Database) (p : IsPostable row db) where
  IsFoundIn-new : IsFoundIn (db.transfers ++ row ∷ []) row
  IsFoundIn-new = (
    find-append_none (has_id row.id) db.transfers (row ∷ [])
          (find-none_of_exists (has_id row.id) db.transfers p.fresh_id)
        ∙ ground (arith, eq_refl row.id),
    find-append_none (has_key row.idempotency_key) db.transfers (row ∷ []) p.fresh_key
        ∙ ground (arith, eq_refl row.idempotency_key),
  )

  post-IsUnique : IsUnique db → IsUnique (post row db)
  post-IsUnique h =
      All-append (IsFoundIn (db.transfers ++ row ∷ [])) db.transfers (row ∷ [])
        (All-map_lem
          (λ r found. (
            find-append_some (has_id r.id) db.transfers (row ∷ []) found.0,
            find-append_some (has_key r.idempotency_key) db.transfers (row ∷ []) found.1,
          ))
          db.transfers h)
        (IsFoundIn-new, tt)

Step-IsUnique : {a b : Database} → Step a b → IsUnique a → IsUnique b
Step-IsUnique (Step.account_opened a db free) h = h
Step-IsUnique (Step.transferred row db p covered) h = post-IsUnique row db p h
Step-IsUnique (Step.seeded row db p treasury) h = post-IsUnique row db p h
Step-IsUnique (Step.requested row ref request db p covered q fresh) h = post-IsUnique row db p h
Step-IsUnique (Step.confirmed id now db) h = h
Step-IsUnique (Step.refunded original id row now db e p refund) h = post-IsUnique row db p h
Step-IsUnique (Step.closed id earlier now db e) h = h
Step-IsUnique (Step.published id now db) h = h

-- If every transfer is the only one with its id and its key, that holds after any committed
-- transactions.
pub Reach-IsUnique : {a b : Database} → Reach a b → IsUnique a → IsUnique b
Reach-IsUnique here h = h
Reach-IsUnique (next r s) h = Step-IsUnique s (Reach-IsUnique r h)
