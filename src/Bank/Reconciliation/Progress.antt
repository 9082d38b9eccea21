-- ===== src/Bank/Reconciliation/Progress.antt =====
-- A sweep settles what the Hub has decided.
use distributed_payment_ledg.Prelude.{
  ℕ, String, ◌+◌, ◌-◌, ◌≤◌, ◌≡◌, refl, subst, inl, inr, Bool, true, false, ◌&&◌, ◌||◌, none, some,
  List, [], ◌∷◌, arith, ◌==◌, nat_Eq, Bool-cases, Option-cases, find, select, length, Any, at_head,
  in_tail,
}
use distributed_payment_ledg.Exec.{ok, Result-cases}
use distributed_payment_ledg.Bank.Database.{Database, InterbankTransferRecord, is_for}
use distributed_payment_ledg.Bank.Transfers.{Draw}
use distributed_payment_ledg.Bank.Interbank.{
  Config, is_stale, find_stale_debited, order_by_updated_at,
}
use distributed_payment_ledg.Bank.Interbank.Ordering.{Any-stale}
use distributed_payment_ledg.Bank.Reply.{SettlementOutcomeEvent, handle, Outcome}
use distributed_payment_ledg.Bank.Reply.Handling.{handle-Handling}
use distributed_payment_ledg.Bank.Reconciliation.{
  Response, unreachable, answered, is_ok, event_of, outcome_of, apply_event, apply_response, Sweep,
  reconcile_one, reconcile_all, tally, sweep, stale_after_ms,
}
use distributed_payment_ledg.Bank.Idempotency.Outcomes.{
  IsSettled, Reach-IsSettled, handled-IsSettled,
}
use distributed_payment_ledg.Bank.Step.{Reach}
use distributed_payment_ledg.Bank.Step.Refinement.Reply.{SweepStep, reconcile_all-Reach}

-- Whether an answer of the Hub decides a settlement: it has no record, or it is not PENDING.
abbrev pub decides : Response → Bool
decides unreachable = false
decides (answered status none) = status == 404
decides (answered status (some view)) =
    status == 404
    || (is_ok status && elim (outcome_of view.status) [ some _ ↦ true | none ↦ false ])

module _ (id : String) (draw : Draw) (meanwhile : Database → Database) (db : Database) where
  -- The outcome that a deciding answer applies.
  decided-event :
      (response : Response)
      → decides response ≡ true
      → (event : SettlementOutcomeEvent) × (event.settlement_id ≡ id)
        × (apply_response draw meanwhile id response db ≡ apply_event draw meanwhile event db)
  unfolding apply_response
  decided-event unreachable h = absurd (cc)
  decided-event (answered status none) h =
      (event_of id Outcome.rejected (some "RECONCILIATION_NO_RECORD_AT_HUB"), refl, ground arith)
  decided-event (answered status (some view)) h = elim (Bool-cases (status == 404)) [
    | inl none_there ↦
        (event_of id Outcome.rejected (some "RECONCILIATION_NO_RECORD_AT_HUB"), refl, ground arith)
    | inr other ↦ elim (Option-cases (outcome_of view.status)) [
      | inl waits ↦ absurd (ground arith)
      | inr (o, says) ↦ (event_of id o view.reject_reason, refl, ground arith)
    ]
  ]

  event-IsSettled :
      (event : SettlementOutcomeEvent) (changed : Bool) (after : Database)
      → Reach db (meanwhile db)
      → apply_event draw meanwhile event db ≡ (ok changed, after)
      → IsSettled event.settlement_id after
  event-IsSettled event changed after steps h =
      elim (Result-cases (handle event draw meanwhile db).0) [
        | inr (e, failed) ↦ absurd (ground arith)
        | inl (a, done) ↦
            handled-IsSettled event draw meanwhile db after steps
              (handle-Handling event draw meanwhile db) (ground arith)
      ]

module _ (config : Config) (s : Sweep) (steps : SweepStep s) where
  reconciled-IsSettled :
      (id : String) (changed : Bool) (db after : Database)
      → decides (s.hub id) ≡ true
      → reconcile_one config s id db ≡ (ok changed, after)
      → IsSettled id after
  unfolding reconcile_one
  reconciled-IsSettled id changed db after says h = elim (Option-cases config.hub_url) [
    | inl unset ↦ absurd (ground arith)
    | inr (url, set) ↦
        let (event, same, applies) =
          decided-event id (s.draw id) (s.meanwhile id) db (s.hub id) says in
        subst (λ i. IsSettled i after) same
          (event-IsSettled id (s.draw id) (s.meanwhile id) db event changed after
            (steps.meanwhile id db) (ground arith))
  ]

  all-IsSettled :
      (id : String) (rows : List InterbankTransferRecord) (n m : ℕ) (db after : Database)
      → Any (λ r. r.transfer_id ≡ id) rows
      → decides (s.hub id) ≡ true
      → reconcile_all config s rows n db ≡ (ok m, after)
      → IsSettled id after
  unfolding reconcile_all
  all-IsSettled id [] n m db after h says done = elim h [ ]
  all-IsSettled id (row ∷ rows) n m db after h says done =
      elim (Result-cases (reconcile_one config s row.transfer_id db).0) [
        | inr (e, failed) ↦ absurd (ground arith)
        | inl (changed, fine) ↦
            let middle : Database = (reconcile_one config s row.transfer_id db).1 in
            let rest : reconcile_all config s rows (tally config s changed n) middle
                ≡ (ok m, after) =
              ground arith in
            go (λ k d. all-IsSettled id rows k m d after) changed middle (ground arith) rest h
      ]
    where
      go :
          ((k : ℕ) (d : Database)
            → Any (λ r. r.transfer_id ≡ id) rows
            → decides (s.hub id) ≡ true
            → reconcile_all config s rows k d ≡ (ok m, after)
            → IsSettled id after)
          → (changed : Bool) (middle : Database)
          → reconcile_one config s row.transfer_id db ≡ (ok changed, middle)
          → reconcile_all config s rows (tally config s changed n) middle ≡ (ok m, after)
          → Any (λ r. r.transfer_id ≡ id) (row ∷ rows)
          → IsSettled id after
      go later changed middle one rest (in_tail k) =
          later (tally config s changed n) middle k says rest
      go later changed middle one rest (at_head e) =
          Reach-IsSettled id
            (subst (λ o. Reach middle o.1) rest
              (reconcile_all-Reach config s steps rows (tally config s changed n) middle))
            (reconciled-IsSettled id changed db middle says
              (subst (λ i. reconcile_one config s i db ≡ (ok changed, middle)) e one))

  tally-le : (changed : Bool) (n : ℕ) → tally config s changed n ≤ n + 1
  tally-le true n = omega arith
  tally-le false n = omega arith

  reconcile_all-counts :
      (rows : List InterbankTransferRecord) (n m : ℕ) (db after : Database)
      → reconcile_all config s rows n db ≡ (ok m, after)
      → m ≤ n + length rows
  unfolding reconcile_all
  reconcile_all-counts [] n m db after h = ground arith
  reconcile_all-counts (row ∷ rows) n m db after h =
      elim (Result-cases (reconcile_one config s row.transfer_id db).0) [
        | inr (e, failed) ↦ absurd (ground arith)
        | inl (changed, fine) ↦
            let middle : Database = (reconcile_one config s row.transfer_id db).1 in
            let rest : m ≤ tally config s changed n + length rows =
              reconcile_all-counts rows (tally config s changed n) m middle after (ground arith) in
            omega (arith, tally-le changed n)
      ]

  -- If what other requests commit is made of steps, a sweep that does not throw has settled every
  -- transfer that was DEBITED for longer than the threshold and for which the Hub's answer was no
  -- record, or any status but PENDING. It counts no more as reconciled than it has checked.
  pub sweep-IsSettled :
      (now checked reconciled : ℕ) (db after : Database)
      → sweep config s now db ≡ (ok (checked, reconciled), after)
      → (reconciled ≤ checked)
        × ((id : String) (row : InterbankTransferRecord)
            → find (is_for id) db.interbank_transfers ≡ some row
            → is_stale (now - stale_after_ms) row ≡ true
            → decides (s.hub id) ≡ true
            → IsSettled id after)
  unfolding sweep find_stale_debited
  sweep-IsSettled now checked reconciled db after h =
      let stale : List InterbankTransferRecord =
        order_by_updated_at (select (is_stale (now - stale_after_ms)) db.interbank_transfers) in
      elim (Result-cases (reconcile_all config s stale 0 db).0) [
        | inr (e, failed) ↦ absurd (ground arith)
        | inl (m, done) ↦
            let all : reconcile_all config s stale 0 db ≡ (ok m, after) = ground arith in
            let count : (checked ≡ length stale) × (reconciled ≡ m) = ground arith in
            (
              omega (arith, count.0, count.1, reconcile_all-counts stale 0 m db after all),
              λ id row found old says.
                  all-IsSettled id stale 0 m db after
                    (Any-stale (now - stale_after_ms) id row db.interbank_transfers found old) says
                    all,
            )
      ]
