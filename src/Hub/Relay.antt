-- ===== src/Hub/Relay.antt =====
-- The relay over the database of the Hub (hub/src/outbox/outbox-relay.service.ts).
use distributed_payment_ledg.Prelude.{ℕ, Bool, List, All}
use distributed_payment_ledg.Exec.{Result}
use distributed_payment_ledg.Outbox.{OutboxEvent, Table}
use distributed_payment_ledg.Outbox.Relay.{Message, Relay, RelayError, tick}
use distributed_payment_ledg.Outbox.Relay.Marking.{
  Marked, same, then_one, FromTable, tick-Marked, tick-sends,
}
use distributed_payment_ledg.Hub.Database.{Database, Event}
use distributed_payment_ledg.Hub.Step.{Step, Reach, here, next}

-- The database, and what the channel was handed.
pub record Relaying : Type 0 where
  pub database : Database
  pub sent : List (Message Event)

abbrev pub outbox_of : Relaying → Relay Event
outbox_of s = record { table = s.database.outbox; sent = s.sent }

-- `tick` of the relay, over the Hub's outbox.
unfoldable pub hub_relay_tick :
    (OutboxEvent Event → Bool) → ℕ → Relaying → Result RelayError ℕ × Relaying
hub_relay_tick accepts now s =
    let (r, after) = tick accepts now (outbox_of s) in
    (r, record { database = record s.database { outbox = after.table }; sent = after.sent })

Marked-Reach :
    (db : Database) {t : Table Event} → Marked db.outbox t → Reach db (record db { outbox = t })
Marked-Reach db same = here
Marked-Reach db (then_one {u} now id p) =
    next (Marked-Reach db p) (Step.published id now (record db { outbox = u }))

-- Whatever the channel takes, a tick of the relay takes steps of the Hub, and every message that it
-- sends is that of an event in the outbox.
pub hub_relay_tick-Reach :
    (accepts : OutboxEvent Event → Bool) (now : ℕ) (s : Relaying)
    → All (FromTable s.database.outbox) s.sent
    → Reach s.database (hub_relay_tick accepts now s).1.database
      × All (FromTable s.database.outbox) (hub_relay_tick accepts now s).1.sent
unfolding hub_relay_tick
hub_relay_tick-Reach accepts now s h = (
  Marked-Reach s.database (tick-Marked accepts now (outbox_of s)),
  tick-sends accepts now (outbox_of s) h,
)
