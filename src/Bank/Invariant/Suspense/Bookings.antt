-- ===== src/Bank/Invariant/Suspense/Bookings.antt =====
-- The suspense account under the bookings of the ledger: one between other accounts, the debit of a
-- transfer to another bank, its confirmation and its refund.
use distributed_payment_ledg.Prelude.{
  ℕ, String, ◌≡◌, ◌≢◌, refl, sym, subst, ◌∙◌, false, true, some, [], ◌∷◌, arith, text_Eq, exists,
  find, find-append_some, find-none_of_exists,
}
use distributed_payment_ledg.Prelude.Int.{cancel_left, without, +ℤ-neg, pos, neg, ◌+ℤ◌, +ℤ-zero}
use distributed_payment_ledg.Bank.Domain.{Transfer, suspense_account_id}
use distributed_payment_ledg.Bank.Database.{
  TransferRow, Database, Status, InterbankTransferRecord, has_id, is_for,
}
use distributed_payment_ledg.Bank.Ledger.{sum_of}
use distributed_payment_ledg.Bank.Posting.{row_of, post, IsPostable}
use distributed_payment_ledg.Bank.Posting.Book.{find-posted}
use distributed_payment_ledg.Bank.Interbank.{InterbankTransferParams, move_debited, is_debited}
use distributed_payment_ledg.Bank.Interbank.Opening.{accompanied, companion}
use distributed_payment_ledg.Bank.Invariant.Funds.{
  sum_of-post_payer, sum_of-post_payee, sum_of-post_other,
}
use distributed_payment_ledg.Bank.Invariant.Suspense.{share, held, IsHeld}
use distributed_payment_ledg.Bank.Invariant.Suspense.Update.{
  held-transfers, AreCompanions-transfers, held-append, AreCompanions-append, update-AreCompanions,
  held-update,
}

-- A booking between other accounts.
pub post-IsHeld :
    (row : TransferRow) (db : Database)
    → row.payer_account_id ≢ suspense_account_id
    → row.payee_account_id ≢ suspense_account_id
    → IsPostable row db
    → IsHeld db
    → IsHeld (post row db)
post-IsHeld row db not_payer not_payee p h = record {
  companions = AreCompanions-transfers db.transfers (row ∷ []) db.interbank_transfers h.companions;
  balance =
      sum_of-post_other row db p.distinct suspense_account_id (λ e. not_payer (sym e))
        (λ e. not_payee (sym e))
      ∙ h.balance
      ∙ sym (held-transfers db.transfers (row ∷ []) db.interbank_transfers h.companions);
}

module _ (t : Transfer) (key : String) (params : InterbankTransferParams) (now : ℕ)
    (bank_id : String) (db : Database) where
  abbrev row : TransferRow
  row = row_of t key now

  held-companion :
      exists (has_id t.id) db.transfers ≡ false
      → held (post row db).transfers (companion t params now ∷ []) ≡ t.amount.cents
  held-companion fresh = ground (arith, find-posted row db fresh, +ℤ-zero t.amount.cents)

  pub opened-IsHeld :
      t.payee_account_id ≡ suspense_account_id
      → IsPostable row db
      → exists (is_for t.id) db.interbank_transfers ≡ false
      → IsHeld db
      → IsHeld (accompanied t params now bank_id (post row db))
  opened-IsHeld to_suspense p fresh h = record {
    companions =
        AreCompanions-append (post row db).transfers db.interbank_transfers (companion t params now)
          row (find-posted row db p.fresh_id)
          (find-none_of_exists (is_for t.id) db.interbank_transfers fresh)
          (AreCompanions-transfers db.transfers (row ∷ []) db.interbank_transfers h.companions);
    balance =
        subst
          (λ a.
            sum_of a (post row db).ledger_entries ≡ sum_of a db.ledger_entries +ℤ t.amount.cents)
          to_suspense (sum_of-post_payee row db p.distinct)
        ∙ rw (
          held-append (post row db).transfers db.interbank_transfers (companion t params now ∷ []),
          held-transfers db.transfers (row ∷ []) db.interbank_transfers h.companions,
          h.balance,
          held-companion p.fresh_id,
        );
  }

module _ (ref : InterbankTransferRecord) (now : ℕ) (db : Database) (h : IsHeld db)
    (found : find (is_for ref.transfer_id) db.interbank_transfers ≡ some ref)
    (debited : is_debited ref ≡ true) where
  abbrev marked : Status → InterbankTransferRecord → InterbankTransferRecord
  marked status r = record r { status = status; updated_at = now }

  share-confirmed : share db.transfers (marked Status.confirmed ref) ≡ share db.transfers ref
  share-confirmed = ground arith

  pub confirmed-IsHeld : IsHeld (move_debited Status.confirmed now ref.transfer_id db)
  confirmed-IsHeld = record {
    companions =
        update-AreCompanions (marked Status.confirmed) (λ r. refl) db.transfers ref.transfer_id
          db.interbank_transfers h.companions;
    balance =
        h.balance
        ∙ sym (
            cancel_left (share db.transfers ref) _ (held db.transfers db.interbank_transfers) _
              (held-update (marked Status.confirmed) (λ r. refl) db.transfers ref.transfer_id ref
                db.interbank_transfers h.companions found debited)
              share-confirmed);
  }

  module _ (back : TransferRow) (stored : TransferRow) (p : IsPostable back db)
      (from_suspense : back.payer_account_id ≡ suspense_account_id)
      (same_amount : back.amount ≡ stored.amount)
      (of_stored : find (has_id ref.transfer_id) db.transfers ≡ some stored) where
    share-stored : share (post back db).transfers ref ≡ back.amount
    share-stored = ground (
      arith,
      same_amount,
      find-append_some (has_id ref.transfer_id) db.transfers (back ∷ []) {a = stored},
    )

    pub refunded-IsHeld :
        IsHeld (move_debited Status.compensated now ref.transfer_id (post back db))
    refunded-IsHeld =
        let companions =
          AreCompanions-transfers db.transfers (back ∷ []) db.interbank_transfers h.companions in
        record {
          companions =
              update-AreCompanions (marked Status.compensated) (λ r. refl) (post back db).transfers
                ref.transfer_id db.interbank_transfers companions;
          balance =
              subst
                (λ a.
                  sum_of a (post back db).ledger_entries
                  ≡ sum_of a db.ledger_entries +ℤ neg back.amount)
                from_suspense (sum_of-post_payer back db p.distinct)
              ∙ without (sum_of suspense_account_id db.ledger_entries) (neg back.amount)
                  (held (post back db).transfers db.interbank_transfers) _ back.amount
                  (+ℤ-neg back.amount)
                  (subst
                    (λ z.
                      z
                        +ℤ held (post back db).transfers
                            (move_debited Status.compensated now ref.transfer_id
                              (post back db)).interbank_transfers
                      ≡ held (post back db).transfers db.interbank_transfers +ℤ pos 0)
                    share-stored
                    (held-update (marked Status.compensated) (λ r. refl) (post back db).transfers
                      ref.transfer_id ref db.interbank_transfers companions found debited))
                  (h.balance
                    ∙ sym (
                        held-transfers db.transfers (back ∷ []) db.interbank_transfers
                          h.companions));
        }
