-- ===== src/Outbox/Tests.antt =====
-- Runs of the relay over an outbox of texts.
use distributed_payment_ledg.Prelude.{
  ℕ, String, ◌≡◌, refl, Bool, not, Option, none, some, [], ◌∷◌, ◌++◌, map, arith, ◌==◌, nat_Eq,
  take,
}
use distributed_payment_ledg.Exec.{err}
use distributed_payment_ledg.Outbox.{OutboxRow, Table, OutboxEvent, insert, mark_published}
use distributed_payment_ledg.Outbox.Queue.{pending, IsOrdered}
use distributed_payment_ledg.Outbox.Relay.{Relay, channel_closed, tick, publish_all}
use distributed_payment_ledg.Outbox.Relay.Delivery.{ticks, row_message, ticks_drain, tick-retries}
use distributed_payment_ledg.Outbox.Claims.{is_claimed, claim_unlocked, claims_consecutive}
use distributed_payment_ledg.Outbox.{claim_unpublished}
use distributed_payment_ledg.Prelude.{◌+◌}
use distributed_payment_ledg.Outbox

abbrev event : ℕ → Option ℕ → String → OutboxRow String
event id published_at payload = record {
  id = id;
  aggregate_id = "t";
  event_type = "settlement.requested";
  routing_key = "settlement.requested";
  payload = payload;
  published_at = published_at;
}

-- One event is published, and two are not.
abbrev queue : Relay String
queue = record {
  table = record {
    rows = event 1 (some 3) "first" ∷ event 2 none "second" ∷ event 4 none "third" ∷ [];
    next_id = 5;
  };
  sent = [];
}

queue-IsOrdered : IsOrdered queue.table
queue-IsOrdered = ground arith

ticks_drain_example :
    (pending (ticks 1 (λ k. k) queue).table ≡ [])
    × ((ticks 1 (λ k. k) queue).sent ≡ [] ++ map row_message (pending queue.table))
ticks_drain_example = ticks_drain 1 (λ k. k) queue queue-IsOrdered (ground arith)

-- The channel closes before the second publication.
abbrev first_only : OutboxEvent String → Bool
first_only e = not (e.id == 4)

abbrev stopped : Relay String
stopped = record queue { sent = row_message (event 2 none "second") ∷ [] }

tick_run : tick first_only 7 queue ≡ (err channel_closed, stopped)
unfolding tick publish_all Outbox.claim_unpublished mark_published
tick_run = refl

tick-retries_example :
    (stopped.table ≡ queue.table)
    × ((k : ℕ) × (stopped.sent ≡ [] ++ map row_message (take k (pending queue.table))))
tick-retries_example = tick-retries first_only 7 queue tick_run

-- A second relay, while the first one has claimed one event.
claims_consecutive_example :
    claim_unpublished 1 queue.table
      ++ claim_unlocked (is_claimed (claim_unpublished 1 queue.table)) 5 queue.table
    ≡ map Outbox.to_event (take (1 + 5) (pending queue.table))
claims_consecutive_example = claims_consecutive 1 5 queue.table queue-IsOrdered
