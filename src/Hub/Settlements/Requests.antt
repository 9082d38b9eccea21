-- ===== src/Hub/Settlements/Requests.antt =====
-- How the handling of a settlement request can end.
use distributed_payment_ledg.Prelude.{
  ℕ, String, ◌≡◌, subst, inl, inr, none, some, arith, find, Option-cases, ◌==◌, text_Eq,
}
use distributed_payment_ledg.Prelude.Int.{ℤ, neg}
use distributed_payment_ledg.Exec.{Result, ok, err, transaction, Result-cases}
use distributed_payment_ledg.Money.{Money, integer, IsSafe, from_cents}
use distributed_payment_ledg.Money.Laws.{negated-safe, from_cents-ok}
use distributed_payment_ledg.Outbox
use distributed_payment_ledg.Hub.Ledger.{append}
use distributed_payment_ledg.Hub.Domain.{
  Error, Settlement, database, domain, invalid_amount, pair, create, entries,
}
use distributed_payment_ledg.Hub.Database.{
  Status, SettlementRecord, Database, Outcome, Event, notify, outcome, has_id, to_bigint,
}
use distributed_payment_ledg.Hub.Banks
use distributed_payment_ledg.Hub.Settlements.{
  SettlementRequestedEvent, row_of, add_row, insert, reject_request, accept_request,
  handle_requested, unknown_payee_bank, settlement_notify_routing_key,
  settlement_outcome_routing_key,
}
use distributed_payment_ledg.Hub.Settlements.Insertion.{
  IsInsertable, Insertion, refused, taken, inserted, insert-Insertion, moves, with_entries, Booking,
  append-Booking,
}

abbrev pub published : String → String → String → Event → Database → Database
published id event_type key event db = record db {
  outbox = Outbox.insert id event_type key event db.outbox;
}

module _ (event : SettlementRequestedEvent) (now : ℕ) where
  abbrev pub id : String
  id = event.settlement_id

  -- The state in which a request for an unknown bank leaves the Hub.
  abbrev pub rejected_state : ℤ → Database → Database
  rejected_state amount db =
      published id "settlement.outcome" (settlement_outcome_routing_key event.payer_bank_id)
        (outcome id Outcome.rejected (some unknown_payee_bank))
        (add_row (row_of event amount Status.rejected (some unknown_payee_bank) now) db)

  abbrev pub accepted_row : ℤ → SettlementRecord
  accepted_row amount = row_of event amount Status.pending none now

  -- The state in which an accepted request leaves the Hub.
  abbrev pub accepted_state : ℤ → Database → Database
  accepted_state amount db =
      published id "settlement.notify" (settlement_notify_routing_key event.payee_bank_id)
        (notify id event.payer_bank_id event.payee_account_ref amount now)
        (with_entries (moves (accepted_row amount) (neg amount) amount now)
          (add_row (accepted_row amount) db))

  -- How the transaction of a request can end.
  pub data Requesting (db : Database) (out : Result Error (Unit {0}) × Database) : Type 0 where
    failed : (e : Error) → out ≡ (err e, db) → Requesting db out
    repeated :
        (earlier : SettlementRecord)
        → find (has_id id) db.settlements ≡ some earlier
        → out ≡ (ok tt, db)
        → Requesting db out
    rejects :
        (amount : ℤ)
        → IsInsertable (row_of event amount Status.rejected (some unknown_payee_bank) now) db
        → out ≡ (ok tt, rejected_state amount db)
        → Requesting db out
    accepts :
        (amount : ℤ)
        → event.amount_cents ≡ integer amount
        → IsSafe amount
        → IsInsertable (accepted_row amount) db
        → out ≡ (ok tt, accepted_state amount db)
        → Requesting db out

  -- How the transaction of a request for a registered bank can end.
  pub data Accepting (db : Database) (out : Result Error (Unit {0}) × Database) : Type 0 where
    failed : (e : Error) → out ≡ (err e, db) → Accepting db out
    repeated :
        (earlier : SettlementRecord)
        → find (has_id id) db.settlements ≡ some earlier
        → out ≡ (ok tt, db)
        → Accepting db out
    accepts :
        (amount : ℤ)
        → event.amount_cents ≡ integer amount
        → IsSafe amount
        → IsInsertable (accepted_row amount) db
        → out ≡ (ok tt, accepted_state amount db)
        → Accepting db out

  Accepting-Requesting :
      (db : Database) {out : Result Error (Unit {0}) × Database}
      → Accepting db out
      → Requesting db out
  Accepting-Requesting db (Accepting.failed e h) = Requesting.failed e h
  Accepting-Requesting db (Accepting.repeated earlier f h) = Requesting.repeated earlier f h
  Accepting-Requesting db (Accepting.accepts amount e safe p h) =
      Requesting.accepts amount e safe p h

  module _ (db : Database) where
    rejected-Requesting :
        (amount : ℤ)
        → to_bigint event.amount_cents ≡ some amount
        → Insertion
            (row_of event amount Status.rejected (some unknown_payee_bank) now)
            db
            (insert (row_of event amount Status.rejected (some unknown_payee_bank) now) db)
        → Requesting db (transaction (reject_request event now) db)
    unfolding reject_request
    rejected-Requesting amount e (refused h) = Requesting.failed database (ground arith)
    rejected-Requesting amount e (taken earlier f h) = Requesting.repeated earlier f (ground arith)
    rejected-Requesting amount e (inserted p h) = Requesting.rejects amount p (ground arith)

    pub reject_request-Requesting : Requesting db (transaction (reject_request event now) db)
    unfolding reject_request
    reject_request-Requesting = elim (Option-cases (to_bigint event.amount_cents)) [
      | inl none_h ↦ Requesting.failed database (ground arith)
      | inr (amount, e) ↦
          rejected-Requesting amount e (
            insert-Insertion (row_of event amount Status.rejected (some unknown_payee_bank) now) db)
    ]

    abbrev settlement : ℤ → Settlement
    settlement amount = record {
      id = id;
      payer_bank_id = event.payer_bank_id;
      payee_bank_id = event.payee_bank_id;
      payee_account_ref = event.payee_account_ref;
      amount = record { cents = amount };
    }

    booked-Accepting :
        (amount : ℤ)
        → event.amount_cents ≡ integer amount
        → IsSafe amount
        → from_cents event.amount_cents ≡ ok (record { cents = amount })
        → create id event.payer_bank_id event.payee_bank_id event.payee_account_ref
            (record { cents = amount })
          ≡ ok (settlement amount)
        → IsInsertable (accepted_row amount) db
        → insert (accepted_row amount) db
          ≡ (ok (some (accepted_row amount)), add_row (accepted_row amount) db)
        → entries (settlement amount)
          ≡ ok
              (pair (settlement amount) (record { cents = neg amount }) (record { cents = amount }))
        → Booking
            (moves (accepted_row amount) (neg amount) amount now)
            (add_row (accepted_row amount) db)
            (append now
              (pair (settlement amount) (record { cents = neg amount }) (record { cents = amount }))
              (add_row (accepted_row amount) db))
        → Accepting db (transaction (accept_request event now) db)
    unfolding accept_request
    booked-Accepting amount e safe read made p h es (Booking.failed x after g) =
        Accepting.failed x (ground arith)
    booked-Accepting amount e safe read made p h es (Booking.booked g) =
        Accepting.accepts amount e safe p (ground arith)

    entries-safe :
        (amount : ℤ)
        → IsSafe amount
        → entries (settlement amount)
          ≡ ok
              (pair (settlement amount) (record { cents = neg amount }) (record { cents = amount }))
    unfolding entries
    entries-safe amount safe = ground (arith, negated-safe (record { cents = amount }) safe)

    accepted-Accepting :
        (amount : ℤ)
        → event.amount_cents ≡ integer amount
        → IsSafe amount
        → from_cents event.amount_cents ≡ ok (record { cents = amount })
        → create id event.payer_bank_id event.payee_bank_id event.payee_account_ref
            (record { cents = amount })
          ≡ ok (settlement amount)
        → Insertion (accepted_row amount) db (insert (accepted_row amount) db)
        → Accepting db (transaction (accept_request event now) db)
    unfolding accept_request
    accepted-Accepting amount e safe read made (refused h) =
        Accepting.failed database (ground arith)
    accepted-Accepting amount e safe read made (taken earlier f h) =
        Accepting.repeated earlier f (ground arith)
    accepted-Accepting amount e safe read made (inserted p h) =
        booked-Accepting amount e safe read made p h (entries-safe amount safe) (
          append-Booking now
            (pair (settlement amount) (record { cents = neg amount }) (record { cents = amount }))
            (add_row (accepted_row amount) db))

    create_lem :
        (amount : Money) (s : Settlement)
        → create id event.payer_bank_id event.payee_bank_id event.payee_account_ref amount ≡ ok s
        → s ≡ settlement amount.cents
    unfolding create
    create_lem amount s h = ground arith

    pub accept_request-Accepting : Accepting db (transaction (accept_request event now) db)
    unfolding accept_request
    accept_request-Accepting = elim (Result-cases (from_cents event.amount_cents)) [
      | inr (e, h) ↦ Accepting.failed (domain (invalid_amount e)) (ground arith)
      | inl (amount, h) ↦
          elim (Result-cases
            (create id event.payer_bank_id event.payee_bank_id event.payee_account_ref amount)) [
              | inr (e, g) ↦ Accepting.failed (domain e) (ground arith)
              | inl (s, g) ↦
                  let (exact, safe) = from_cents-ok event.amount_cents amount h in
                  accepted-Accepting amount.cents exact safe h
                    (ground (arith, create_lem amount s g))
                    (insert-Insertion (accepted_row amount.cents) db)
            ]
    ]

-- Every end of `handleRequested` is an end of one of its two transactions.
pub handle_requested-Requesting :
    (event : SettlementRequestedEvent) (now : ℕ) (meanwhile : Database → Database) (db : Database)
    → Requesting event now (meanwhile db) (handle_requested event now meanwhile db)
unfolding handle_requested Banks.find_by_id
handle_requested-Requesting event now meanwhile db =
    elim (Option-cases (find (λ b. b.id == event.payee_bank_id) db.banks)) [
      | inl e ↦
          subst (Requesting event now (meanwhile db)) (ground arith)
            (reject_request-Requesting event now (meanwhile db))
      | inr (b, e) ↦ subst (Requesting event now (meanwhile db)) (ground arith) (
          Accepting-Requesting event now (meanwhile db)
            (accept_request-Accepting event now (meanwhile db)))
    ]
