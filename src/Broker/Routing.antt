-- ===== src/Broker/Routing.antt =====
-- Where the messages of a settlement go.
use Prim.Native.Char.{code}
use Prim.Native.String as Text
use text.Mathlib.TextLemmas.{
  append_cancel_left, append_assoc, head-eq_of_cons-eq, nil-append, cons-append,
}
use distributed_payment_ledg.Prelude.{
  String, ◌≡◌, ◌≢◌, refl, sym, ap, ◌∙◌, inl, inr, Bool, true, false, not, ◌&&◌, ◌||◌, [], ◌∷◌,
  arith, ◌==◌, text_Eq, nat_Eq, eq_iff, eq_refl, Bool-cases,
}
use distributed_payment_ledg.Prelude.Texts.{◌<>◌}
use distributed_payment_ledg.Outbox.Relay.{hub_settlements_exchange}
use distributed_payment_ledg.Bank.Interbank.{settlement_requested_routing_key}
use distributed_payment_ledg.Hub.Settlements.{settlement_outcome_routing_key}
use distributed_payment_ledg.Broker.{
  Topology, ◌and◌, shared, hub_topology, bank_topology, other_bank, settlement_reply_routing_key,
  requests_queue, replies_queue, routed, is_plain, MatchesPlain,
}

is_plain-append : (s t : String) → is_plain (s <> t) ≡ (is_plain s && is_plain t)
unfolding is_plain
is_plain-append Text.[] t = rw (nil-append t) refl
is_plain-append (Text.◌∷◌ c s) t =
    rw (cons-append c s t, is_plain-append s t)
      (and_assoc (not (code c == 42 || code c == 35)) (is_plain s) (is_plain t))
  where
    and_assoc : (a b d : Bool) → (a && (b && d)) ≡ ((a && b) && d)
    and_assoc true b d = refl
    and_assoc false b d = refl

outcome_key-plain :
    (bank_id : String)
    → is_plain bank_id ≡ true
    → is_plain (settlement_outcome_routing_key bank_id) ≡ true
unfolding is_plain
outcome_key-plain bank_id h = is_plain-append "settlement.outcome." bank_id ∙ h

differ : (s t : String) → s ≢ t → (s == t) ≡ false
differ s t h = elim (Bool-cases (s == t)) [
  | inl same ↦ absurd (h ((eq_iff s t).0 same))
  | inr other ↦ other
]

requested≢outcome :
    (bank_id : String) → settlement_requested_routing_key ≢ settlement_outcome_routing_key bank_id
requested≢outcome bank_id h =
    let rest : "requested" ≡ "outcome." <> bank_id =
      append_cancel_left "settlement." "requested" ("outcome." <> bank_id)
        (h ∙ append_assoc "settlement." "outcome." bank_id) in
    let e : code "r" ≡ code "o" = ap code (
      head-eq_of_cons-eq {x = "r"} {y = "o"} {xs = "equested"} {ys = "utcome." <> bank_id}
        (rest ∙ cons-append "o" "utcome." bank_id)) in
    omega (arith, e)

reply≢outcome :
    (bank_id : String) → settlement_reply_routing_key ≢ settlement_outcome_routing_key bank_id
reply≢outcome bank_id h =
    let rest : "reply" ≡ "outcome." <> bank_id =
      append_cancel_left "settlement." "reply" ("outcome." <> bank_id)
        (h ∙ append_assoc "settlement." "outcome." bank_id) in
    let e : code "r" ≡ code "o" = ap code (
      head-eq_of_cons-eq {x = "r"} {y = "o"} {xs = "eply"} {ys = "utcome." <> bank_id}
        (rest ∙ cons-append "o" "utcome." bank_id)) in
    omega (arith, e)

keys_apart : settlement_reply_routing_key ≢ settlement_requested_routing_key
keys_apart h = cc ((eq_iff settlement_reply_routing_key settlement_requested_routing_key).1 h)

-- The Hub, the bank, and a queue for the outcomes of another bank.
abbrev pub topology : String → String → String → Topology
topology bank_id other queue =
    shared and hub_topology and bank_topology bank_id and other_bank other queue

module _ (matches : String → String → Bool) (m : MatchesPlain matches) where
  misses : (p k : String) → is_plain p ≡ true → p ≢ k → matches p k ≡ false
  misses p k plain h = m p k plain ∙ differ p k h

  hits : (p : String) → is_plain p ≡ true → matches p p ≡ true
  hits p plain = m p p plain ∙ eq_refl p

  module _ (bank_id other queue : String) (plain : is_plain bank_id ≡ true)
      (plain' : is_plain other ≡ true) where
    -- If no bank's id has a wildcard, the broker hands a settlement request to the Hub's queue of
    -- requests, and a reply to its queue of replies, and to no other queue.
    pub request_routed :
        (routed matches
            (topology bank_id other queue)
            hub_settlements_exchange
            settlement_requested_routing_key
          ≡ requests_queue ∷ [])
        × (routed matches
              (topology bank_id other queue)
              hub_settlements_exchange
              settlement_reply_routing_key
            ≡ replies_queue ∷ [])
    unfolding routed hub_topology bank_topology is_plain
    request_routed = (
      rw
          (
            hits settlement_requested_routing_key refl,
            misses settlement_reply_routing_key settlement_requested_routing_key refl keys_apart,
            misses (settlement_outcome_routing_key bank_id) settlement_requested_routing_key
                (outcome_key-plain bank_id plain) (λ e. requested≢outcome bank_id (sym e)),
            misses (settlement_outcome_routing_key other) settlement_requested_routing_key
                (outcome_key-plain other plain') (λ e. requested≢outcome other (sym e)),
          )
          refl,
      rw
          (
            misses settlement_requested_routing_key settlement_reply_routing_key refl
                (λ e. keys_apart (sym e)),
            hits settlement_reply_routing_key refl,
            misses (settlement_outcome_routing_key bank_id) settlement_reply_routing_key
                (outcome_key-plain bank_id plain) (λ e. reply≢outcome bank_id (sym e)),
            misses (settlement_outcome_routing_key other) settlement_reply_routing_key
                (outcome_key-plain other plain') (λ e. reply≢outcome other (sym e)),
          )
          refl,
    )
