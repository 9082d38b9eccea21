-- ===== src/System/Agreement/AtHub.antt =====
-- A step of the Hub keeps what it has announced and what it says of a transfer.
use distributed_payment_ledg.Prelude.{
  ℕ, String, ◌≡◌, ◌≢◌, refl, sym, subst, ap, ◌∙◌, inl, inr, true, false, none, some, List, [], ◌∷◌,
  ◌++◌, arith, ◌==◌, nat_Eq, text_Eq, eq_iff, Bool-cases, find, update, find-append_none,
  find_holds, All, All-append, All-map_lem,
}
use distributed_payment_ledg.Outbox.{OutboxRow}
use distributed_payment_ledg.Outbox
use distributed_payment_ledg.Bank.Database.{Status}
use distributed_payment_ledg.Hub.Database as HubData
use distributed_payment_ledg.Hub.Database.{
  Database as HubDatabase, SettlementRecord, Event, notify, outcome, has_id,
}
use distributed_payment_ledg.Hub.Settlements.{
  row_of, unknown_payee_bank, confirm_row, reverse_row, reason_or_default, is_open, is_pending,
}
use distributed_payment_ledg.Hub.Settlements.Requests.{accepted_row}
use distributed_payment_ledg.Hub.Invariant.History.{settlement-Develops, find-update_open}
use distributed_payment_ledg.Hub.Redelivery.Request.{find-new}
use distributed_payment_ledg.Hub.Step as HubStep
use distributed_payment_ledg.System.{System, is_lost, decided, Served}
use distributed_payment_ledg.System.Agreement.{Says, Verdict, Truthful}

not_pending :
    (status : HubData.Status) (o : HubData.Outcome)
    → decided status ≡ some o
    → status ≢ HubData.Status.pending
not_pending status o h e = ground arith

module _ {a b : HubDatabase} (step : HubStep.Step a b) where
  pub Says-Step : (id : String) (o : HubData.Outcome) → Says a id o → Says b id o
  Says-Step id o (row, found, says) =
      let (row', found', develops) =
        settlement-Develops id row (HubStep.next HubStep.here step) found in
      let same : row' ≡ row = develops.final (not_pending row.status o says) in
      (row', found', ap (λ r. decided r.status) same ∙ says)

  Truthful-Step : (event : Event) → Truthful a event → Truthful b event
  Truthful-Step (notify id payer ref amount at) h = tt
  Truthful-Step (outcome id o reason) h = Says-Step id o h

  rows-Step :
      (rows : List (OutboxRow Event))
      → All (λ row. Truthful a row.payload) rows
      → All (λ row. Truthful b row.payload) rows
  rows-Step rows h = All-map_lem (λ row t. Truthful-Step row.payload t) rows h

  extended :
      (rows : List (OutboxRow Event)) (row : OutboxRow Event)
      → Truthful b row.payload
      → All (λ row. Truthful a row.payload) rows
      → All (λ row. Truthful b row.payload) (rows ++ row ∷ [])
  extended rows row t h =
      All-append (λ row. Truthful b row.payload) rows (row ∷ []) (rows-Step rows h) (t, tt)

marked :
    (hub : HubDatabase) (id now : ℕ) (rows : List (OutboxRow Event))
    → All (λ row. Truthful hub row.payload) rows
    → All
        (λ row. Truthful hub row.payload)
        (update (λ row. row.id == id) (λ row. record row { published_at = some now }) rows)
marked hub id now [] h = tt
marked hub id now (row ∷ rows) h =
    (subst (Truthful hub) (ground arith) h.0, marked hub id now rows h.1)

-- The PENDING settlement that an update resolves.
resolved-Says :
    (f : SettlementRecord → SettlementRecord) (o : HubData.Outcome) (row : SettlementRecord)
    (hub : HubDatabase)
    → ((r : SettlementRecord) → (f r).id ≡ r.id)
    → decided (f row).status ≡ some o
    → find (has_id row.id) hub.settlements ≡ some row
    → is_pending row ≡ true
    → Says (record hub { settlements = update (is_open row.id) f hub.settlements }) row.id o
resolved-Says f o row hub same says found pending = (
  f row,
  ground (
    arith,
    find-update_open f row.id row.id hub.settlements same,
    find_holds (has_id row.id) hub.settlements found,
  ),
  says,
)

module _ (bank_id : String) where
  -- What the Hub has announced stays true.
  pub truthful_at_hub :
      (s : System) {a b : HubDatabase} (p : HubStep.Step a b)
      → Served bank_id s p
      → All (λ row. Truthful a row.payload) a.outbox.rows
      → All (λ row. Truthful b row.payload) b.outbox.rows
  unfolding Outbox.insert Outbox.mark_published
  truthful_at_hub s (HubStep.registered bank db free) w h =
      rows-Step (HubStep.registered bank db free) db.outbox.rows h
  truthful_at_hub s (HubStep.rejected event now amount db p) w h =
      let row : SettlementRecord =
        row_of event amount HubData.Status.rejected (some unknown_payee_bank) now in
      extended (HubStep.rejected event now amount db p) db.outbox.rows _
        (row, find-new row db.settlements p.fresh, refl) h
  truthful_at_hub s (HubStep.accepted event now amount db e safe p) w h =
      extended (HubStep.accepted event now amount db e safe p) db.outbox.rows _ tt h
  truthful_at_hub s (HubStep.confirmed row event now db later) w h =
      extended (HubStep.confirmed row event now db later) db.outbox.rows _
        (rw w.1 (
          resolved-Says (confirm_row now) HubData.Outcome.confirmed row db (λ r. refl) refl w.0.0
            w.0.1))
        h
  truthful_at_hub s (HubStep.reversed row event now db later safe) w h =
      extended (HubStep.reversed row event now db later safe) db.outbox.rows _
        (rw w.1 (
          resolved-Says (reverse_row now (reason_or_default event.reason)) HubData.Outcome.reversed
            row db (λ r. refl) refl w.0.0 w.0.1))
        h
  truthful_at_hub s (HubStep.published id now db) w h =
      let after : HubDatabase = record db { outbox = Outbox.mark_published now id db.outbox } in
      marked after id now db.outbox.rows (rows-Step (HubStep.published id now db) db.outbox.rows h)

  -- What the Hub says of a transfer stays.
  pub verdict_at_hub :
      (s : System) {b : HubDatabase} (p : HubStep.Step s.hub b) (id : String) (status : Status)
      → (find (has_id id) s.hub.settlements ≡ none
          → is_lost id s ≡ true
          → find (has_id id) b.settlements ≡ none)
      → Verdict s id status
      → Verdict (record s { hub = b }) id status
  verdict_at_hub s p id Status.debited none_yet h = tt
  verdict_at_hub s p id Status.confirmed none_yet h = Says-Step p id HubData.Outcome.confirmed h
  verdict_at_hub s p id Status.compensated none_yet (inl (inl h)) =
      inl (inl (Says-Step p id HubData.Outcome.reversed h))
  verdict_at_hub s p id Status.compensated none_yet (inl (inr h)) =
      inl (inr (Says-Step p id HubData.Outcome.rejected h))
  verdict_at_hub s p id Status.compensated none_yet (inr h) = inr (none_yet h.0 h.1, h.1)

  absent_after :
      (id : String) (row : SettlementRecord) (s : System) (rows : List SettlementRecord)
      → is_lost row.id s ≡ false
      → is_lost id s ≡ true
      → find (has_id id) rows ≡ none
      → find (has_id id) (rows ++ row ∷ []) ≡ none
  absent_after id row s rows present lost h =
      find-append_none (has_id id) rows (row ∷ []) h ∙ elim (Bool-cases (has_id id row)) [
        | inl same ↦
            let e : row.id ≡ id = (eq_iff row.id id).0 same in
            absurd (cc (sym present, ap (λ i. is_lost i s) e, lost))
        | inr other ↦ ground arith
      ]

  -- A lost request adds no settlement.
  pub none_yet_at_hub :
      (s : System) {a b : HubDatabase} (p : HubStep.Step a b) (id : String)
      → Served bank_id s p
      → find (has_id id) a.settlements ≡ none
      → is_lost id s ≡ true
      → find (has_id id) b.settlements ≡ none
  none_yet_at_hub s (HubStep.registered bank db free) id w h lost = h
  none_yet_at_hub s (HubStep.rejected event now amount db p) id w h lost =
      absent_after id (row_of event amount HubData.Status.rejected (some unknown_payee_bank) now) s
        db.settlements w.1 lost h
  none_yet_at_hub s (HubStep.accepted event now amount db e safe p) id w h lost =
      absent_after id (accepted_row event now amount) s db.settlements w.1 lost h
  none_yet_at_hub s (HubStep.confirmed row event now db later) id w h lost =
      rw (find-update_open (confirm_row now) row.id id db.settlements (λ r. refl), h) refl
  none_yet_at_hub s (HubStep.reversed row event now db later safe) id w h lost =
      rw
        (
          find-update_open (reverse_row now (reason_or_default event.reason)) row.id id
              db.settlements (λ r. refl),
          h,
        )
        refl
  none_yet_at_hub s (HubStep.published target now db) id w h lost = h
