-- ===== src/Broker/Tests.antt =====
-- Two banks beside the Hub.
use distributed_payment_ledg.Prelude.{String, ◌≡◌, refl, Bool, [], ◌∷◌, ◌==◌, text_Eq}
use distributed_payment_ledg.Broker.{
  hub_topology, bank_topology, requests_queue, hub_dlq, routed, dead_lettered,
}
use distributed_payment_ledg.Broker.Routing.{topology}

-- A broker that knows no wildcards.
abbrev plainly : String → String → Bool
plainly binding key = binding == key

-- A rejected request waits in the Hub's dead-letter queue.
rejected_run :
    dead_lettered plainly (topology "bank-a" "bank-b" "bank-b.outcomes") requests_queue
    ≡ hub_dlq ∷ []
unfolding dead_lettered routed hub_topology bank_topology
rejected_run = refl
