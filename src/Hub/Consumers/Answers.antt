-- ===== src/Hub/Consumers/Answers.antt =====
-- What the answer to the broker says about the Hub's tables.
use distributed_payment_ledg.Prelude.{ℕ, ◌≡◌, refl, ◌⊎◌, inl, inr, some}
use distributed_payment_ledg.Exec.{Result, ok, err}
use distributed_payment_ledg.Hub.Domain.{Error}
use distributed_payment_ledg.Hub.Database.{Database}
use distributed_payment_ledg.Hub.Settlements.{SettlementRequestedEvent, SettlementReplyEvent}
use distributed_payment_ledg.Hub.Settlements.Requests.{Requesting, handle_requested-Requesting}
use distributed_payment_ledg.Hub.Settlements.Resolution.{
  Replying, Resolution, handle_reply-Resolution,
}
use distributed_payment_ledg.Hub.Redelivery.Request.{IsHandled, handled}
use distributed_payment_ledg.Hub.Redelivery.Reply.{IsResolved, resolved}
use distributed_payment_ledg.Hub.Step.{Reach}
use distributed_payment_ledg.Hub.Consumers.{acked, dead_lettered, on_requested, on_reply}

request-ends :
    (event : SettlementRequestedEvent) (now : ℕ) (db : Database)
    {out : Result Error (Unit {0}) × Database}
    → Requesting event now db out
    → ((e : Error) × (out ≡ (err e, db))) ⊎ ((after : Database) × (out ≡ (ok tt, after)))
request-ends event now db (Requesting.failed e h) = inl (e, h)
request-ends event now db (Requesting.repeated earlier f h) = inr (db, h)
request-ends event now db (Requesting.rejects amount p h) = inr (_, h)
request-ends event now db (Requesting.accepts amount e safe p h) = inr (_, h)

-- A settlement request that is dead-lettered has changed nothing, and one that is acknowledged has
-- its settlement stored.
pub on_requested_sound :
    (event : SettlementRequestedEvent) (now : ℕ) (meanwhile : Database → Database) (db : Database)
    → (((on_requested (some event) now meanwhile db).0 ≡ dead_lettered)
        × ((on_requested (some event) now meanwhile db).1 ≡ meanwhile db))
      ⊎ (((on_requested (some event) now meanwhile db).0 ≡ acked)
          × IsHandled event.settlement_id (on_requested (some event) now meanwhile db).1)
unfolding on_requested
on_requested_sound event now meanwhile db =
    let end = handle_requested-Requesting event now meanwhile db in
    elim (request-ends event now (meanwhile db) end) [
      | inl (e, h) ↦ inl (rw h refl, rw h refl)
      | inr (after, h) ↦ inr (rw h refl, rw h (handled event now (meanwhile db) after end h))
    ]

reply-ends :
    (event : SettlementReplyEvent) (now : ℕ) (meanwhile : Database → Database) (db : Database)
    {out : Result Error (Unit {0}) × Database}
    → Resolution event now meanwhile db out
    → ((e : Error) × (d : Database) × (out ≡ (err e, d)) × ((d ≡ db) ⊎ (d ≡ meanwhile db)))
      ⊎ ((after : Database) × (out ≡ (ok tt, after)))
reply-ends event now meanwhile db (Resolution.unknown e h) = inl (_, db, h, inl refl)
reply-ends event now meanwhile db (Resolution.ignored row e s h) = inr (db, h)
reply-ends event now meanwhile db (Resolution.applied row e s (Replying.failed x h)) =
    inl (x, meanwhile db, h, inr refl)
reply-ends event now meanwhile db (Resolution.applied row e s (Replying.confirms o h)) = inr (_, h)
reply-ends event now meanwhile db (Resolution.applied row e s (Replying.reverses o safe h)) =
    inr (_, h)

-- If what other requests commit is made of steps, a reply that is dead-lettered has changed nothing
-- itself, and one that is acknowledged leaves its settlement in a final state.
pub on_reply_sound :
    (event : SettlementReplyEvent) (now : ℕ) (meanwhile : Database → Database) (db : Database)
    → Reach db (meanwhile db)
    → (((on_reply (some event) now meanwhile db).0 ≡ dead_lettered)
        × (((on_reply (some event) now meanwhile db).1 ≡ db)
            ⊎ ((on_reply (some event) now meanwhile db).1 ≡ meanwhile db)))
      ⊎ (((on_reply (some event) now meanwhile db).0 ≡ acked)
          × IsResolved event.settlement_id (on_reply (some event) now meanwhile db).1)
unfolding on_reply
on_reply_sound event now meanwhile db steps =
    let end = handle_reply-Resolution event now meanwhile db in
    elim (reply-ends event now meanwhile db end) [
      | inl (e, d, h, place) ↦ inl (rw h refl, rw h place)
      | inr (after, h) ↦ inr (rw h refl, rw h (resolved event now meanwhile db after steps end h))
    ]
