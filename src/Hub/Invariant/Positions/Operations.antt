-- ===== src/Hub/Invariant/Positions/Operations.antt =====
-- Handling requests and replies keeps the reserves in step with the settlements.
use distributed_payment_ledg.Prelude.{
  ℕ, String, ◌≡◌, refl, sym, subst, ◌∙◌, true, some, [], ◌∷◌, arith, text_Eq, eq_iff, find,
  find_holds,
}
use distributed_payment_ledg.Prelude.Int.{cancel_left, without, ℤ, pos, neg, ◌+ℤ◌, +ℤ-zero}
use distributed_payment_ledg.Exec.{Result}
use distributed_payment_ledg.Hub.Domain.{Error}
use distributed_payment_ledg.Hub.Database.{Database, Status, SettlementRecord, has_id}
use distributed_payment_ledg.Hub.Ledger.{reserve_of}
use distributed_payment_ledg.Hub.Settlements.{
  SettlementRequestedEvent, SettlementReplyEvent, row_of, unknown_payee_bank, is_pending,
  confirm_row, reverse_row, reason_or_default, handle_requested, handle_reply,
}
use distributed_payment_ledg.Hub.Settlements.Insertion.{moves, IsInsertable}
use distributed_payment_ledg.Hub.Settlements.Requests.{
  Requesting, accepted_row, accepted_state, rejected_state, handle_requested-Requesting,
}
use distributed_payment_ledg.Hub.Settlements.Resolution.{
  Replying, Resolution, confirmed_state, reversed_state, handle_reply-Resolution,
}
use distributed_payment_ledg.Hub.Invariant.Positions.{net, share, position, IsSettled}
use distributed_payment_ledg.Hub.Invariant.Positions.Update.{
  reserve_of-append, position-append, reserve_of-moves, reserve_of-moves_back, IsDistinct-append,
  update-IsDistinct, position-update,
}

module _ (event : SettlementRequestedEvent) (now : ℕ) (amount : ℤ) (db : Database) where
  rejected-IsSettled :
      IsInsertable (row_of event amount Status.rejected (some unknown_payee_bank) now) db
      → IsSettled db
      → IsSettled (rejected_state event now amount db)
  unfolding ◌+ℤ◌
  rejected-IsSettled p h = record {
    distinct =
        IsDistinct-append (row_of event amount Status.rejected (some unknown_payee_bank) now)
          db.settlements h.distinct p.fresh;
    settled = λ bank.
        h.settled bank
        ∙ sym (
            position-append bank db.settlements
              (row_of event amount Status.rejected (some unknown_payee_bank) now ∷ [])
            ∙ +ℤ-zero (position bank db.settlements));
  }

  accepted-IsSettled :
      IsInsertable (accepted_row event now amount) db
      → IsSettled db
      → IsSettled (accepted_state event now amount db)
  accepted-IsSettled p h = record {
    distinct = IsDistinct-append (accepted_row event now amount) db.settlements h.distinct p.fresh;
    settled = λ bank. ground (
      arith,
      reserve_of-append bank db.ledger_entries
          (moves (accepted_row event now amount) (neg amount) amount now),
      reserve_of-moves bank (accepted_row event now amount) now,
      position-append bank db.settlements (accepted_row event now amount ∷ []),
      +ℤ-zero (net bank (accepted_row event now amount)),
      h.settled bank,
    );
  }

Requesting-IsSettled :
    (event : SettlementRequestedEvent) (now : ℕ) (db : Database)
    {out : Result Error (Unit {0}) × Database}
    → Requesting event now db out
    → IsSettled db
    → IsSettled out.1
Requesting-IsSettled event now db (Requesting.failed e h) s = rw h s
Requesting-IsSettled event now db (Requesting.repeated earlier e h) s = rw h s
Requesting-IsSettled event now db (Requesting.rejects amount p h) s =
    rw h (rejected-IsSettled event now amount db p s)
Requesting-IsSettled event now db (Requesting.accepts amount e safe p h) s =
    rw h (accepted-IsSettled event now amount db p s)

-- If the reserve of each bank is what its settlements come to when the transaction of a
-- settlement request begins, that still holds when the request was handled, on every branch.
pub handle_requested-IsSettled :
    (event : SettlementRequestedEvent) (now : ℕ) (meanwhile : Database → Database) (db : Database)
    → IsSettled (meanwhile db)
    → IsSettled (handle_requested event now meanwhile db).1
handle_requested-IsSettled event now meanwhile db =
    Requesting-IsSettled event now (meanwhile db)
      (handle_requested-Requesting event now meanwhile db)

module _ (row : SettlementRecord) (event : SettlementReplyEvent) (now : ℕ) (db : Database)
    (found : find (has_id row.id) db.settlements ≡ some row) (pending : is_pending row ≡ true) where
  share_pending : (bank : String) → share bank row ≡ net bank row
  share_pending bank = ground arith

  confirmed-IsSettled : IsSettled db → IsSettled (confirmed_state row event now db)
  confirmed-IsSettled h = record {
    distinct = update-IsDistinct (confirm_row now) (λ r. refl) row.id db.settlements h.distinct;
    settled = λ bank.
        h.settled bank
        ∙ sym (
            cancel_left (share bank row) _ (position bank db.settlements) (net bank row)
              (position-update (confirm_row now) (λ r. refl) bank row.id row db.settlements
                h.distinct found pending)
              (sym (share_pending bank)));
  }

  reversed-IsSettled : IsSettled db → IsSettled (reversed_state row event now db)
  reversed-IsSettled h = record {
    distinct =
        update-IsDistinct (reverse_row now (reason_or_default event.reason)) (λ r. refl) row.id
          db.settlements h.distinct;
    settled = λ bank.
        reserve_of-append bank db.ledger_entries
          (moves row row.amount_cents (neg row.amount_cents) now)
        ∙ without (reserve_of bank db.ledger_entries) _ (position bank db.settlements) _
            (net bank row) (reserve_of-moves_back bank row now)
            (subst
              (λ z.
                z +ℤ position bank (reversed_state row event now db).settlements
                ≡ position bank db.settlements +ℤ pos 0)
              (share_pending bank)
              (position-update (reverse_row now (reason_or_default event.reason)) (λ r. refl) bank
                row.id row db.settlements h.distinct found pending))
            (h.settled bank);
  }

Replying-IsSettled :
    (row : SettlementRecord) (event : SettlementReplyEvent) (now : ℕ) (db : Database)
    {out : Result Error (Unit {0}) × Database}
    → find (has_id row.id) db.settlements ≡ some row
    → is_pending row ≡ true
    → Replying row event now db out
    → IsSettled db
    → IsSettled out.1
Replying-IsSettled row event now db e p (Replying.failed x h) s = rw h s
Replying-IsSettled row event now db e p (Replying.confirms o h) s =
    rw h (confirmed-IsSettled row event now db e p s)
Replying-IsSettled row event now db e p (Replying.reverses o safe h) s =
    rw h (reversed-IsSettled row event now db e p s)

module _ (event : SettlementReplyEvent) (now : ℕ) (meanwhile : Database → Database) (db : Database)
    (before : IsSettled db) (after : IsSettled (meanwhile db))
    (same : find (has_id event.settlement_id) (meanwhile db).settlements
      ≡ find (has_id event.settlement_id) db.settlements) where
  Resolution-IsSettled :
      {out : Result Error (Unit {0}) × Database}
      → Resolution event now meanwhile db out
      → IsSettled out.1
  Resolution-IsSettled (Resolution.unknown e h) = rw h before
  Resolution-IsSettled (Resolution.ignored row e s h) = rw h before
  Resolution-IsSettled (Resolution.applied row e s r) =
      let row_id : event.settlement_id ≡ row.id = sym (
        (eq_iff row.id event.settlement_id).0
          (find_holds (has_id event.settlement_id) db.settlements e)) in
      Replying-IsSettled row event now (meanwhile db)
        (subst (λ id. find (has_id id) (meanwhile db).settlements ≡ some row) row_id (same ∙ e)) s r
        after

  -- If the reserve of each bank is what its settlements come to when a reply is read and when
  -- its transaction begins, and the settlement itself is the same at both times, then that still
  -- holds when the reply was handled, on every branch.
  pub handle_reply-IsSettled : IsSettled (handle_reply event now meanwhile db).1
  handle_reply-IsSettled = Resolution-IsSettled (handle_reply-Resolution event now meanwhile db)
