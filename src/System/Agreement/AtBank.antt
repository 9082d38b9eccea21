-- ===== src/System/Agreement/AtBank.antt =====
-- A step of the bank settles a transfer as the Hub says.
use distributed_payment_ledg.Prelude.{
  ℕ, String, ◌≡◌, subst, ◌⊎◌, inl, inr, ◌&&◌, true, some, List, [], ◌∷◌, ◌++◌, arith, nat_Eq,
  text_Eq, eq_iff, Bool-cases, Option-cases, find, update, find-append_some, find-append_none,
  find_holds, All, All-Any,
}
use distributed_payment_ledg.Bank.Database.{
  Database as BankDatabase, Status, InterbankTransferRecord, is_for,
}
use distributed_payment_ledg.Bank.Interbank.{is_debited}
use distributed_payment_ledg.Bank.Invariant.Saga.{moved, find-move_debited}
use distributed_payment_ledg.Bank.Step as BankStep
use distributed_payment_ledg.Hub.Database as HubData
use distributed_payment_ledg.Hub.Database.{
  Database as HubDatabase, SettlementRecord, Event, notify, outcome, has_id,
}
use distributed_payment_ledg.System.{
  System, Told, announced, viewed, missing, ToldUndone, Warranted,
}
use distributed_payment_ledg.System.Agreement.{Says, NeverAsked, Verdict, Truthful}

module _ (bank_id : String) where
  -- What the bank was told is what the Hub says, or the Hub was never asked.
  Told-Says :
      (s : System) (id : String) (o : HubData.Outcome)
      → All (λ row. Truthful s.hub row.payload) s.hub.outbox.rows
      → Told bank_id s id o
      → Says s.hub id o ⊎ (NeverAsked s id × (o ≡ HubData.Outcome.rejected))
  Told-Says s id o h (announced a) =
      let (row, truth, (key, (reason, e))) = All-Any s.hub.outbox.rows h a in
      inl (subst (Truthful s.hub) e truth)
  Told-Says s id o h (viewed row found says) = inl (row, found, says)
  Told-Says s id o h (missing absent lost e) = inr ((absent, lost), e)

  undone :
      (s : System) (id : String)
      → All (λ row. Truthful s.hub row.payload) s.hub.outbox.rows
      → ToldUndone bank_id s id
      → Verdict s id Status.compensated
  undone s id h (inl t) = elim (Told-Says s id HubData.Outcome.reversed h t) [
    | inl says ↦ inl (inl says)
    | inr (never, e) ↦ absurd (cc)
  ]
  undone s id h (inr t) = elim (Told-Says s id HubData.Outcome.rejected h t) [
    | inl says ↦ inl (inr says)
    | inr (never, e) ↦ inr never
  ]

  done :
      (s : System) (id : String)
      → All (λ row. Truthful s.hub row.payload) s.hub.outbox.rows
      → Told bank_id s id HubData.Outcome.confirmed
      → Verdict s id Status.confirmed
  done s id h t = elim (Told-Says s id HubData.Outcome.confirmed h t) [
    | inl says ↦ says
    | inr (never, e) ↦ absurd (cc)
  ]

-- The companion rows of a list agree with the Hub.
abbrev pub RowsAgree : System → List InterbankTransferRecord → Type 0
RowsAgree s rows =
    (id : String) (row : InterbankTransferRecord)
    → find (is_for id) rows ≡ some row
    → Verdict s id row.status

module _ (s : System) where
  -- A new row is DEBITED.
  added-RowsAgree :
      (ref : InterbankTransferRecord) (rows : List InterbankTransferRecord)
      → ref.status ≡ Status.debited
      → RowsAgree s rows
      → RowsAgree s (rows ++ ref ∷ [])
  added-RowsAgree ref rows fresh h id row e = elim (Option-cases (find (is_for id) rows)) [
    | inr (r, found) ↦
        let same : r ≡ row = ground (arith, find-append_some (is_for id) rows (ref ∷ []) found) in
        subst (λ r. Verdict s id r.status) same (h id r found)
    | inl absent ↦
        let same : ref ≡ row =
          ground (arith, find-append_none (is_for id) rows (ref ∷ []) absent) in
        subst (λ r. Verdict s id r.status) same (rw fresh tt)
  ]

  moved_to :
      (status : Status) (now : ℕ) (target id : String) (r : InterbankTransferRecord)
      → is_for id r ≡ true
      → Verdict s target status
      → Verdict s id r.status
      → Verdict s id (moved status now target id r).status
  moved_to status now target id r mine v h = elim (Bool-cases (is_for target r && is_debited r)) [
    | inr other ↦ rw other h
    | inl hit ↦
        let e : target ≡ id =
          ground (arith, eq_iff r.transfer_id target, eq_iff r.transfer_id id) in
        rw hit (subst (λ i. Verdict s i status) e v)
  ]

  moved-RowsAgree :
      (status : Status) (now : ℕ) (target : String) (rows : List InterbankTransferRecord)
      → Verdict s target status
      → RowsAgree s rows
      → RowsAgree s (
          update
            (λ row. is_for target row && is_debited row)
            (λ row. record row { status = status; updated_at = now })
            rows)
  moved-RowsAgree status now target rows v h id row e =
      elim (Option-cases (find (is_for id) rows)) [
        | inl absent ↦ absurd (ground (arith, find-move_debited status now target id rows))
        | inr (r, found) ↦
            let same : moved status now target id r ≡ row =
              ground (arith, find-move_debited status now target id rows) in
            subst (λ r. Verdict s id r.status) same
              (moved_to status now target id r (find_holds (is_for id) rows found) v (h id r found))
      ]

  pub rows_at_bank :
      (bank_id : String) {a b : BankDatabase} (p : BankStep.Step a b)
      → All (λ row. Truthful s.hub row.payload) s.hub.outbox.rows
      → Warranted bank_id s p
      → RowsAgree s a.interbank_transfers
      → RowsAgree s b.interbank_transfers
  rows_at_bank bank_id (BankStep.account_opened a db free) t w h = h
  rows_at_bank bank_id (BankStep.transferred row db p covered) t w h = h
  rows_at_bank bank_id (BankStep.seeded row db p treasury) t w h = h
  rows_at_bank bank_id (BankStep.requested row ref request db p covered q fresh) t w h =
      added-RowsAgree ref db.interbank_transfers q.starts_debited h
  rows_at_bank bank_id (BankStep.confirmed id now db) t w h =
      moved-RowsAgree Status.confirmed now id db.interbank_transfers (done bank_id s id t w) h
  rows_at_bank bank_id (BankStep.refunded original id row now db e p refund) t w h =
      moved-RowsAgree Status.compensated now id db.interbank_transfers (undone bank_id s id t w) h
  rows_at_bank bank_id (BankStep.closed id earlier now db e) t w h =
      moved-RowsAgree Status.compensated now id db.interbank_transfers (undone bank_id s id t w) h
  rows_at_bank bank_id (BankStep.published id now db) t w h = h
