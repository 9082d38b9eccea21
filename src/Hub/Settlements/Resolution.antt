-- ===== src/Hub/Settlements/Resolution.antt =====
-- How the handling of the payee bank's reply to a settlement can end.
use distributed_payment_ledg.Prelude.{
  ℕ, String, ◌≡◌, refl, subst, inl, inr, true, false, none, some, List, arith, find, update,
  Option-cases, Bool-cases, text_Eq,
}
use distributed_payment_ledg.Prelude.Int.{neg}
use distributed_payment_ledg.Exec.{Result, ok, err, transaction, Result-cases}
use distributed_payment_ledg.Money.{Money, integer, IsSafe, from_cents}
use distributed_payment_ledg.Money.Laws.{negated-safe, from_cents-ok}
use distributed_payment_ledg.Hub.Domain.{
  Error, ReserveEntry, Settlement, domain, no_settlement, invalid_amount, pair, create,
  reversal_entries,
}
use distributed_payment_ledg.Hub.Database.{SettlementRecord, Database, outcome, has_id}
use distributed_payment_ledg.Hub.Ledger.{append}
use distributed_payment_ledg.Hub.Settlements
use distributed_payment_ledg.Hub.Settlements.{
  ReplyOutcome, SettlementReplyEvent, mark_confirmed, mark_reversed, reverse, apply_reply,
  handle_reply, reason_or_default, relayed, is_pending, is_open, confirm_row, reverse_row,
  settlement_outcome_routing_key,
}
use distributed_payment_ledg.Hub.Settlements.Insertion.{
  moves, with_entries, Booking, append-Booking,
}
use distributed_payment_ledg.Hub.Settlements.Requests.{published}

module _ (row : SettlementRecord) (event : SettlementReplyEvent) (now : ℕ) where
  abbrev reason : String
  reason = reason_or_default event.reason

  -- The outcome passed on to the payer's bank.
  abbrev pub announced : Database → Database
  announced =
      published row.id "settlement.outcome" (settlement_outcome_routing_key row.payer_bank_id)
        (outcome row.id (relayed event.outcome) event.reason)

  abbrev pub confirmed_state : Database → Database
  confirmed_state db =
      announced
        (record db { settlements = update (is_open row.id) (confirm_row now) db.settlements })

  abbrev pub reversed_state : Database → Database
  reversed_state db =
      announced (record (with_entries (moves row row.amount_cents (neg row.amount_cents) now) db) {
        settlements = update (is_open row.id) (reverse_row now reason) db.settlements;
      })

  module _ (db : Database) where
    -- How the transaction of a reply can end.
    pub data Replying (out : Result Error (Unit {0}) × Database) : Type 0 where
      failed : (e : Error) → out ≡ (err e, db) → Replying out
      confirms :
          event.outcome ≡ ReplyOutcome.confirmed → out ≡ (ok tt, confirmed_state db) → Replying out
      reverses :
          event.outcome ≡ ReplyOutcome.reversed
          → IsSafe row.amount_cents
          → out ≡ (ok tt, reversed_state db)
          → Replying out

    abbrev settlement : Settlement
    settlement = record {
      id = row.id;
      payer_bank_id = row.payer_bank_id;
      payee_bank_id = row.payee_bank_id;
      payee_account_ref = row.payee_account_ref;
      amount = record { cents = row.amount_cents };
    }

    create_lem :
        (amount : Money) (s : Settlement)
        → create row.id row.payer_bank_id row.payee_bank_id row.payee_account_ref amount ≡ ok s
        → s ≡ record settlement { amount = amount }
    unfolding create
    create_lem amount s h = ground arith

    abbrev rows_back : List ReserveEntry
    rows_back =
        pair settlement (record { cents = row.amount_cents })
          (record { cents = neg row.amount_cents })

    reversal_entries-safe : IsSafe row.amount_cents → reversal_entries settlement ≡ ok rows_back
    unfolding reversal_entries
    reversal_entries-safe safe =
        ground (arith, negated-safe (record { cents = row.amount_cents }) safe)

    booked-Replying :
        event.outcome ≡ ReplyOutcome.reversed
        → IsSafe row.amount_cents
        → from_cents (integer row.amount_cents) ≡ ok (record { cents = row.amount_cents })
        → create row.id row.payer_bank_id row.payee_bank_id row.payee_account_ref
            (record { cents = row.amount_cents })
          ≡ ok settlement
        → reversal_entries settlement ≡ ok rows_back
        → Booking
            (moves row row.amount_cents (neg row.amount_cents) now)
            db
            (append now rows_back db)
        → Replying (transaction (apply_reply row event now) db)
    unfolding apply_reply reverse mark_reversed
    booked-Replying o safe read made es (Booking.failed x after g) = failed x (ground arith)
    booked-Replying o safe read made es (Booking.booked g) = reverses o safe (ground arith)

    reversed-Replying :
        event.outcome ≡ ReplyOutcome.reversed
        → Replying (transaction (apply_reply row event now) db)
    unfolding apply_reply reverse
    reversed-Replying o = elim (Result-cases (from_cents (integer row.amount_cents))) [
      | inr (e, h) ↦ failed (domain (invalid_amount e)) (ground arith)
      | inl (amount, h) ↦
          elim (Result-cases
            (create row.id row.payer_bank_id row.payee_bank_id row.payee_account_ref amount)) [
              | inr (e, g) ↦ failed (domain e) (ground arith)
              | inl (s, g) ↦
                  let (exact, safe) = from_cents-ok (integer row.amount_cents) amount h in
                  booked-Replying o (ground arith) (ground arith)
                    (ground (arith, create_lem amount s g)) (reversal_entries-safe (ground arith))
                    (append-Booking now rows_back db)
            ]
    ]

    pub apply_reply-Replying :
        (o : ReplyOutcome)
        → event.outcome ≡ o
        → Replying (transaction (apply_reply row event now) db)
    unfolding apply_reply mark_confirmed
    apply_reply-Replying ReplyOutcome.confirmed o = confirms o (ground arith)
    apply_reply-Replying ReplyOutcome.reversed o = reversed-Replying o

module _ (event : SettlementReplyEvent) (now : ℕ) (meanwhile : Database → Database)
    (db : Database) where
  -- How `handleReply` can end. Only a settlement that was read as PENDING is acted on.
  pub data Resolution (out : Result Error (Unit {0}) × Database) : Type 0 where
    unknown :
        find (has_id event.settlement_id) db.settlements ≡ none
        → out ≡ (err (no_settlement event.settlement_id), db)
        → Resolution out
    ignored :
        (row : SettlementRecord)
        → find (has_id event.settlement_id) db.settlements ≡ some row
        → is_pending row ≡ false
        → out ≡ (ok tt, db)
        → Resolution out
    applied :
        (row : SettlementRecord)
        → find (has_id event.settlement_id) db.settlements ≡ some row
        → is_pending row ≡ true
        → Replying row event now (meanwhile db) out
        → Resolution out

  pub handle_reply-Resolution : Resolution (handle_reply event now meanwhile db)
  unfolding handle_reply Settlements.find_by_id
  handle_reply-Resolution = elim (Option-cases (find (has_id event.settlement_id) db.settlements)) [
    | inl e ↦ unknown e (ground arith)
    | inr (row, e) ↦ elim (Bool-cases (is_pending row)) [
      | inl h ↦ applied row e h (
          subst (Replying row event now (meanwhile db)) (ground arith)
            (apply_reply-Replying row event now (meanwhile db) event.outcome refl))
      | inr h ↦ ignored row e h (ground arith)
    ]
  ]
