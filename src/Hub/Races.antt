-- ===== src/Hub/Races.antt =====
-- Two replies that both read a settlement as PENDING before either of their transactions commits.
use distributed_payment_ledg.Prelude.{
  ℕ, String, ◌≡◌, ap, subst, ◌∙◌, true, some, arith, text_Eq, find,
}
use distributed_payment_ledg.Prelude.Int.{ℤ, pos, neg, pos_part, neg_part, ◌+ℤ◌, int_laws}
use distributed_payment_ledg.Exec.{Result, ok}
use distributed_payment_ledg.Hub.Domain.{Error}
use distributed_payment_ledg.Hub.Database.{Database, SettlementRecord, has_id}
use distributed_payment_ledg.Hub.Ledger.{reserve_of}
use distributed_payment_ledg.Hub.Settlements.{
  ReplyOutcome, SettlementReplyEvent, handle_reply, is_pending,
}
use distributed_payment_ledg.Hub.Settlements.Insertion.{moves}
use distributed_payment_ledg.Hub.Settlements.Resolution.{
  Replying, Resolution, handle_reply-Resolution,
}
use distributed_payment_ledg.Hub.Invariant.Positions.{net}
use distributed_payment_ledg.Hub.Invariant.Positions.Update.{
  reserve_of-append, reserve_of-moves_back,
}

back : (n r m : ℤ) → n +ℤ m ≡ pos 0 → n +ℤ (r +ℤ m) ≡ r
back n r m h = omega (int_laws, ap pos_part h, ap neg_part h)

-- The reserves after a reversal that succeeded, with the net amount moved back once.
module _ (row : SettlementRecord) (event : SettlementReplyEvent) (bank : String) (now : ℕ)
    (reversal : event.outcome ≡ ReplyOutcome.reversed) where
  once :
      (before after : Database) {out : Result Error (Unit {0}) × Database}
      → Replying row event now before out
      → out ≡ (ok tt, after)
      → net bank row +ℤ reserve_of bank after.ledger_entries ≡ reserve_of bank before.ledger_entries
  once before after (Replying.failed e h) g = ground arith
  once before after (Replying.confirms o h) g = ground arith
  once before after (Replying.reverses o safe h) g = ground (
    arith,
    reserve_of-append bank before.ledger_entries
        (moves row row.amount_cents (neg row.amount_cents) now),
    back (net bank row) (reserve_of bank before.ledger_entries) _
        (reserve_of-moves_back bank row now),
  )

  acting :
      (meanwhile : Database → Database) (db after : Database)
      {out : Result Error (Unit {0}) × Database}
      → find (has_id event.settlement_id) db.settlements ≡ some row
      → is_pending row ≡ true
      → Resolution event now meanwhile db out
      → out ≡ (ok tt, after)
      → net bank row +ℤ reserve_of bank after.ledger_entries
        ≡ reserve_of bank (meanwhile db).ledger_entries
  acting meanwhile db after found pending (Resolution.unknown e h) g = ground arith
  acting meanwhile db after found pending (Resolution.ignored other e s h) g = ground arith
  acting meanwhile db after {out} found pending (Resolution.applied other e s r) g =
      once (meanwhile db) after
        (subst (λ o. Replying o event now (meanwhile db) out) (ground arith) r) g

-- `handleReply` reads the status outside of its transaction, and neither the reversal's entries nor
-- its event depend on the status inside. If a second delivery of a REVERSED reply has read the
-- settlement as PENDING when the first one commits, and both succeed, the reserve of each bank has
-- given its net amount of the settlement back twice.
pub reversed_twice :
    (event : SettlementReplyEvent) (row : SettlementRecord) (now now' : ℕ)
    (db first second : Database) (bank : String)
    → find (has_id event.settlement_id) db.settlements ≡ some row
    → is_pending row ≡ true
    → event.outcome ≡ ReplyOutcome.reversed
    → handle_reply event now (λ d. d) db ≡ (ok tt, first)
    → handle_reply event now' (λ _. first) db ≡ (ok tt, second)
    → net bank row +ℤ (net bank row +ℤ reserve_of bank second.ledger_entries)
      ≡ reserve_of bank db.ledger_entries
reversed_twice event row now now' db first second bank found pending reversal h g =
    ap (λ z. net bank row +ℤ z)
      (acting row event bank now' reversal (λ _. first) db second found pending
        (handle_reply-Resolution event now' (λ _. first) db) g)
    ∙ acting row event bank now reversal (λ d. d) db first found pending
        (handle_reply-Resolution event now (λ d. d) db) h
