-- ===== src/System/Backing.antt =====
-- The money behind the settlements that the Hub holds for the bank.
use distributed_payment_ledg.Prelude.{
  ℕ, String, ◌≡◌, ◌≢◌, refl, sym, subst, ◌∙◌, inl, inr, false, some, List, [], ◌∷◌, arith, ◌==◌,
  nat_Eq, text_Eq, eq_refl, Bool-cases, find, exists, update, find-append_some, find-append_none,
  find-none_of_exists, All, All-append, All-map_lem, All-Any,
}
use distributed_payment_ledg.Prelude.Int.{ℤ}
use distributed_payment_ledg.Money.{integer}
use distributed_payment_ledg.Outbox.{OutboxRow}
use distributed_payment_ledg.Outbox
use distributed_payment_ledg.Bank.Domain.{suspense_account_id}
use distributed_payment_ledg.Bank.Database.{
  Database as BankDatabase, TransferRow, SettlementRequest, has_id,
}
use distributed_payment_ledg.Bank.Posting.{post}
use distributed_payment_ledg.Bank.Step.{with_companion, IsRequestFor}
use distributed_payment_ledg.Bank.Step as BankStep
use distributed_payment_ledg.Hub.Database as HubData
use distributed_payment_ledg.Hub.Database.{Database as HubDatabase, SettlementRecord}
use distributed_payment_ledg.Hub.Settlements.{
  SettlementRequestedEvent, confirm_row, reverse_row, reason_or_default, is_open,
}
use distributed_payment_ledg.Hub.Settlements.Requests.{accepted_row}
use distributed_payment_ledg.Hub.Step as HubStep
use distributed_payment_ledg.System.{
  System, Asked, ours, theirs, Served, Step, at_bank, at_hub, loses, Reach, here, next,
}

-- The bank has moved the amount from a customer to the suspense account, under the same id.
abbrev pub Backed : BankDatabase → String → ℤ → Type 0
Backed bank id amount =
    (row : TransferRow) × (find (has_id id) bank.transfers ≡ some row)
    × (row.amount ≡ amount)
    × (row.payee_account_id ≡ suspense_account_id)

abbrev pub RequestBacked : BankDatabase → OutboxRow SettlementRequest → Type 0
RequestBacked bank e = Backed bank e.payload.settlement_id e.payload.amount_cents

-- A settlement of the bank that the Hub has accepted.
abbrev pub SettlementBacked : String → BankDatabase → SettlementRecord → Type 0
SettlementBacked bank_id bank row =
    row.payer_bank_id ≡ bank_id
    → row.status ≢ HubData.Status.rejected
    → Backed bank row.id row.amount_cents

pub record IsBacked (bank_id : String) (s : System) : Type 0 where
  pub requests : All (RequestBacked s.bank) s.bank.outbox.rows
  pub settlements : All (SettlementBacked bank_id s.bank) s.hub.settlements

Backed-append :
    (row : TransferRow) (bank : BankDatabase) (id : String) (amount : ℤ)
    → Backed bank id amount
    → Backed (post row bank) id amount
Backed-append row bank id amount (r, found, same, suspense) =
    (r, find-append_some (has_id id) bank.transfers (row ∷ []) found, same, suspense)

Backed-new :
    (row : TransferRow) (bank : BankDatabase)
    → exists (has_id row.id) bank.transfers ≡ false
    → row.payee_account_id ≡ suspense_account_id
    → Backed (post row bank) row.id row.amount
Backed-new row bank fresh suspense = (
  row,
  find-append_none (has_id row.id) bank.transfers (row ∷ [])
        (find-none_of_exists (has_id row.id) bank.transfers fresh)
      ∙ ground (arith, eq_refl row.id),
  refl,
  suspense,
)

-- A transfer of the bank stays behind what it backs.
Backed-Step :
    {a b : BankDatabase} (p : BankStep.Step a b) (id : String) (amount : ℤ)
    → Backed a id amount
    → Backed b id amount
Backed-Step (BankStep.account_opened a db free) id amount h = h
Backed-Step (BankStep.transferred row db p covered) id amount h = Backed-append row db id amount h
Backed-Step (BankStep.seeded row db p treasury) id amount h = Backed-append row db id amount h
Backed-Step (BankStep.requested row ref request db p covered q fresh) id amount h =
    Backed-append row db id amount h
Backed-Step (BankStep.confirmed target now db) id amount h = h
Backed-Step (BankStep.refunded original target row now db e p refund) id amount h =
    Backed-append row db id amount h
Backed-Step (BankStep.closed target earlier now db e) id amount h = h
Backed-Step (BankStep.published target now db) id amount h = h

requests-Step :
    {a b : BankDatabase} (p : BankStep.Step a b) (rows : List (OutboxRow SettlementRequest))
    → All (RequestBacked a) rows
    → All (RequestBacked b) rows
requests-Step p rows h =
    All-map_lem (λ e r. Backed-Step p e.payload.settlement_id e.payload.amount_cents r) rows h

marked :
    (bank : BankDatabase) (id now : ℕ) (rows : List (OutboxRow SettlementRequest))
    → All (RequestBacked bank) rows
    → All
        (RequestBacked bank)
        (update (λ row. row.id == id) (λ row. record row { published_at = some now }) rows)
marked bank id now [] h = tt
marked bank id now (row ∷ rows) h = (
  elim (Bool-cases (row.id == id)) [ inl hit ↦ rw hit h.0 | inr other ↦ rw other h.0 ],
  marked bank id now rows h.1,
)

requests_at_bank :
    {a b : BankDatabase} (p : BankStep.Step a b)
    → All (RequestBacked a) a.outbox.rows
    → All (RequestBacked b) b.outbox.rows
unfolding Outbox.insert Outbox.mark_published
requests_at_bank (BankStep.account_opened a db free) h =
    requests-Step (BankStep.account_opened a db free) db.outbox.rows h
requests_at_bank (BankStep.transferred row db p covered) h =
    requests-Step (BankStep.transferred row db p covered) db.outbox.rows h
requests_at_bank (BankStep.seeded row db p treasury) h =
    requests-Step (BankStep.seeded row db p treasury) db.outbox.rows h
requests_at_bank (BankStep.requested row ref request db p covered q fresh) h =
    let after : BankDatabase = with_companion row ref request (post row db) in
    All-append (RequestBacked after) db.outbox.rows _
      (requests-Step (BankStep.requested row ref request db p covered q fresh) db.outbox.rows h)
      (rw (q.request_id, q.request_amount) (Backed-new row db p.fresh_id q.to_suspense), tt)
requests_at_bank (BankStep.confirmed id now db) h =
    requests-Step (BankStep.confirmed id now db) db.outbox.rows h
requests_at_bank (BankStep.refunded original id row now db e p refund) h =
    requests-Step (BankStep.refunded original id row now db e p refund) db.outbox.rows h
requests_at_bank (BankStep.closed id earlier now db e) h =
    requests-Step (BankStep.closed id earlier now db e) db.outbox.rows h
requests_at_bank (BankStep.published id now db) h =
    let after : BankDatabase = record db { outbox = Outbox.mark_published now id db.outbox } in
    marked after id now db.outbox.rows
      (requests-Step (BankStep.published id now db) db.outbox.rows h)

module _ (bank_id : String) where
  settlements_at_bank :
      {a b : BankDatabase} (p : BankStep.Step a b) (rows : List SettlementRecord)
      → All (SettlementBacked bank_id a) rows
      → All (SettlementBacked bank_id b) rows
  settlements_at_bank p rows h =
      All-map_lem (λ r b ours live. Backed-Step p r.id r.amount_cents (b ours live)) rows h

  -- A settlement that is resolved was PENDING, and moves what it did.
  resolved :
      (bank : BankDatabase) (f : SettlementRecord → SettlementRecord) (id : String)
      (rows : List SettlementRecord)
      → ((r : SettlementRecord) → (f r).payer_bank_id ≡ r.payer_bank_id)
      → ((r : SettlementRecord) → (f r).id ≡ r.id)
      → ((r : SettlementRecord) → (f r).amount_cents ≡ r.amount_cents)
      → All (SettlementBacked bank_id bank) rows
      → All (SettlementBacked bank_id bank) (update (is_open id) f rows)
  resolved bank f id [] payer same amount h = tt
  resolved bank f id (row ∷ rows) payer same amount h = (
    elim (Bool-cases (is_open id row)) [
      | inr other ↦ rw other h.0
      | inl waits ↦ rw waits (λ ours live.
          rw (same row, amount row) (h.0 (sym (payer row) ∙ ours) (λ rejected. ground arith)))
    ],
    resolved bank f id rows payer same amount h.1,
  )

  accepted-Backed :
      (s : System) (event : SettlementRequestedEvent) (now : ℕ) (amount : ℤ)
      → All (RequestBacked s.bank) s.bank.outbox.rows
      → Asked bank_id s event
      → event.amount_cents ≡ integer amount
      → SettlementBacked bank_id s.bank (accepted_row event now amount)
  accepted-Backed s event now amount h (theirs other) e mine live = absurd (other mine)
  accepted-Backed s event now amount h (ours a) e mine live =
      let (row, backed, same) = All-Any s.bank.outbox.rows h a in
      rw same (subst (Backed s.bank row.payload.settlement_id) (cc) backed)

  settlements_at_hub :
      (s : System) {a b : HubDatabase} (p : HubStep.Step a b)
      → Served bank_id s p
      → All (RequestBacked s.bank) s.bank.outbox.rows
      → All (SettlementBacked bank_id s.bank) a.settlements
      → All (SettlementBacked bank_id s.bank) b.settlements
  settlements_at_hub s (HubStep.registered bank db free) w r h = h
  settlements_at_hub s (HubStep.rejected event now amount db p) w r h =
      All-append (SettlementBacked bank_id s.bank) db.settlements _ h
        (λ mine live. absurd (live refl), tt)
  settlements_at_hub s (HubStep.accepted event now amount db e safe p) w r h =
      All-append (SettlementBacked bank_id s.bank) db.settlements _ h
        (accepted-Backed s event now amount r w.0 e, tt)
  settlements_at_hub s (HubStep.confirmed row event now db later) w r h =
      resolved s.bank (confirm_row now) row.id db.settlements (λ r. refl) (λ r. refl) (λ r. refl) h
  settlements_at_hub s (HubStep.reversed row event now db later safe) w r h =
      resolved s.bank (reverse_row now (reason_or_default event.reason)) row.id db.settlements
        (λ r. refl) (λ r. refl) (λ r. refl) h
  settlements_at_hub s (HubStep.published id now db) w r h = h

  Step-IsBacked : {a b : System} → Step bank_id a b → IsBacked bank_id a → IsBacked bank_id b
  Step-IsBacked (at_bank s p w) h = record {
    requests = requests_at_bank p h.requests;
    settlements = settlements_at_bank p s.hub.settlements h.settlements;
  }
  Step-IsBacked (at_hub s p w) h = record {
    requests = h.requests;
    settlements = settlements_at_hub s p w h.requests h.settlements;
  }
  Step-IsBacked (loses id s) h = record { requests = h.requests; settlements = h.settlements }

  -- If each request in the bank's outbox and each settlement of the bank that the Hub has accepted
  -- is backed by a transfer of the same id and amount to the bank's suspense account, they are so
  -- after any steps of both services: the Hub never moves more or less than the bank has taken.
  pub Reach-IsBacked : {a b : System} → Reach bank_id a b → IsBacked bank_id a → IsBacked bank_id b
  Reach-IsBacked here h = h
  Reach-IsBacked (next r step) h = Step-IsBacked step (Reach-IsBacked r h)
