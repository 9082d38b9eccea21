-- ===== src/Hub/Step/Refinement.antt =====
-- Every operation of the Hub takes steps of its abstract ledger, whatever interleaves with it.
use distributed_payment_ledg.Prelude.{
  ℕ, String, ◌≡◌, subst, sym, ◌&&◌, some, arith, find, find_holds, eq_iff, text_Eq, Bool-cases, inl,
  inr,
}
use distributed_payment_ledg.Exec.{Result}
use distributed_payment_ledg.Hub.Domain.{Error}
use distributed_payment_ledg.Hub.Database.{
  Database, SettlementRecord, has_id, has_bank, length_within,
}
use distributed_payment_ledg.Hub.Banks.{create, register_bank}
use distributed_payment_ledg.Hub.Settlements.{
  SettlementRequestedEvent, SettlementReplyEvent, handle_requested, handle_reply,
}
use distributed_payment_ledg.Hub.Settlements.Requests.{Requesting, handle_requested-Requesting}
use distributed_payment_ledg.Hub.Settlements.Resolution.{
  Replying, Resolution, handle_reply-Resolution,
}
use distributed_payment_ledg.Hub.Invariant.History.{settlement-Develops}
use distributed_payment_ledg.Hub.Step.{Step, Reach, here, one, Reach-trans, Later}

-- Registering a bank takes at most one step of the Hub.
pub register_bank-Reach :
    (id name base_url : String) (now : ℕ) (db : Database)
    → Reach db (register_bank id name base_url now db).1
unfolding register_bank create
register_bank-Reach id name base_url now db =
    elim (Bool-cases
      (length_within 64 id && length_within 120 name && length_within 255 base_url)) [
        | inr bad ↦ subst (Reach db) (ground arith) here
        | inl fine ↦ elim (Bool-cases (has_bank id db)) [
          | inl known ↦ subst (Reach db) (ground arith) here
          | inr free ↦ subst (Reach db) (ground arith) (
              one (
                Step.registered
                  (record { id = id; name = name; base_url = base_url; created_at = now }) db free))
        ]
      ]

module _ (now : ℕ) (meanwhile : Database → Database) (db : Database)
    (steps : Reach db (meanwhile db)) where
  Requesting-Reach :
      (event : SettlementRequestedEvent) {out : Result Error (Unit {0}) × Database}
      → Requesting event now (meanwhile db) out
      → Reach db out.1
  Requesting-Reach event (Requesting.failed e h) = rw h steps
  Requesting-Reach event (Requesting.repeated earlier e h) = rw h steps
  Requesting-Reach event (Requesting.rejects amount p h) =
      rw h (Reach-trans steps (one (Step.rejected event now amount (meanwhile db) p)))
  Requesting-Reach event (Requesting.accepts amount e safe p h) =
      rw h (Reach-trans steps (one (Step.accepted event now amount (meanwhile db) e safe p)))

  -- If what other requests commit is made of steps, a settlement request takes at most one step
  -- of the Hub beside theirs.
  pub handle_requested-Reach :
      (event : SettlementRequestedEvent) → Reach db (handle_requested event now meanwhile db).1
  handle_requested-Reach event =
      Requesting-Reach event (handle_requested-Requesting event now meanwhile db)

  Replying-Reach :
      (event : SettlementReplyEvent) (row : SettlementRecord)
      {out : Result Error (Unit {0}) × Database}
      → Later row.id row (meanwhile db)
      → Replying row event now (meanwhile db) out
      → Reach db out.1
  Replying-Reach event row later (Replying.failed e h) = rw h steps
  Replying-Reach event row later (Replying.confirms o h) =
      rw h (Reach-trans steps (one (Step.confirmed row event now (meanwhile db) later)))
  Replying-Reach event row later (Replying.reverses o safe h) =
      rw h (Reach-trans steps (one (Step.reversed row event now (meanwhile db) later safe)))

  found_id :
      (id : String) (row : SettlementRecord)
      → find (has_id id) db.settlements ≡ some row
      → id ≡ row.id
  found_id id row e = sym ((eq_iff row.id id).0 (find_holds (has_id id) db.settlements e))

  Resolution-Reach :
      (event : SettlementReplyEvent) {out : Result Error (Unit {0}) × Database}
      → Resolution event now meanwhile db out
      → Reach db out.1
  Resolution-Reach event (Resolution.unknown e h) = rw h here
  Resolution-Reach event (Resolution.ignored row e s h) = rw h here
  Resolution-Reach event (Resolution.applied row e s r) =
      Replying-Reach event row
        (subst (λ id. Later id row (meanwhile db)) (found_id event.settlement_id row e)
          (settlement-Develops event.settlement_id row steps e))
        r

  -- If what other requests commit is made of steps, a reply takes at most one step of the Hub
  -- beside theirs, also when another reply resolves the settlement between its read and its
  -- transaction.
  pub handle_reply-Reach :
      (event : SettlementReplyEvent) → Reach db (handle_reply event now meanwhile db).1
  handle_reply-Reach event = Resolution-Reach event (handle_reply-Resolution event now meanwhile db)
