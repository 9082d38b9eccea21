-- ===== src/System/Refinement/Requests.antt =====
-- How a request reaches the Hub and a reply decides it (hub/src/settlements), and how the bank opens
-- a transfer to another bank (src/interbank-transfers).
use distributed_payment_ledg.Prelude.{
  ℕ, String, ◌≡◌, sym, subst, ap, ◌∙◌, some, find, exists, find_holds, eq_iff, text_Eq,
}
use distributed_payment_ledg.Exec.{Result}
use distributed_payment_ledg.Money.{IsSafe}
use distributed_payment_ledg.Bank.Database.{
  Database as BankDatabase, TransferRow, InterbankTransferRecord, SettlementRequest, is_for,
}
use distributed_payment_ledg.Bank.Posting.{row_of, post, IsPostable}
use distributed_payment_ledg.Bank.Step.{IsCovered, with_companion}
use distributed_payment_ledg.Bank.Domain.{Error as BankError}
use distributed_payment_ledg.Bank.Transfers.{Draw, Others}
use distributed_payment_ledg.Bank.Interbank.{
  InterbankTransferParams, InterbankTransferResult, Config, request, execute,
}
use distributed_payment_ledg.Bank.Interbank.Opening.{companion}
use distributed_payment_ledg.Bank.Interbank.Execution.{
  Execution, replay-reads, replay_winner-reads, execute-Execution,
}
use distributed_payment_ledg.Bank.Step.Refinement.Interbank.{request-IsRequestFor}
use distributed_payment_ledg.Bank.Step as BankStep
use distributed_payment_ledg.Hub.Domain.{Error}
use distributed_payment_ledg.Hub.Database.{Database as HubDatabase, SettlementRecord, has_id}
use distributed_payment_ledg.Hub.Settlements.{
  SettlementRequestedEvent, SettlementReplyEvent, handle_requested, handle_reply,
}
use distributed_payment_ledg.Hub.Settlements.Requests.{Requesting, handle_requested-Requesting}
use distributed_payment_ledg.Hub.Settlements.Resolution.{
  Replying, Resolution, handle_reply-Resolution,
}
use distributed_payment_ledg.Hub.Invariant.History.{Develops-refl}
use distributed_payment_ledg.Hub.Step as HubStep
use distributed_payment_ledg.System.{
  System, Alone, Delivered, Served, at_bank, at_hub, Reach, here, next, Reach-trans,
}
use distributed_payment_ledg.System.Refinement.Outcomes.{Reaches}

-- A state of the system in which the Hub has this database.
abbrev pub HubReaches : String → System → HubDatabase → Type 0
HubReaches bank_id s hub = (s' : System) × Reach bank_id s s' × (s'.hub ≡ hub)

one_at_hub :
    (bank_id : String) {s : System} (s' : System) {hub : HubDatabase} (p : HubStep.Step s'.hub hub)
    {after : HubDatabase}
    → Reach bank_id s s'
    → Served bank_id s' p
    → after ≡ hub
    → HubReaches bank_id s after
one_at_hub bank_id s' {hub} p steps w h =
    (record s' { hub = hub }, next steps (at_hub s' p w), sym h)

module _ (bank_id : String) (now : ℕ) (meanwhile : HubDatabase → HubDatabase) (s s' : System)
    (steps : Reach bank_id s s') (same : s'.hub ≡ meanwhile s.hub) where
  requested :
      (event : SettlementRequestedEvent) {out : Result Error (Unit {0}) × HubDatabase}
      → Delivered bank_id s' event
      → Requesting event now s'.hub out
      → HubReaches bank_id s out.1
  requested event d (Requesting.failed e h) = (s', steps, sym (ap (λ r. r.1) h))
  requested event d (Requesting.repeated earlier e h) = (s', steps, sym (ap (λ r. r.1) h))
  requested event d (Requesting.rejects amount p h) =
      one_at_hub bank_id s' (HubStep.rejected event now amount s'.hub p) steps d (ap (λ r. r.1) h)
  requested event d (Requesting.accepts amount e safe p h) =
      one_at_hub bank_id s' (HubStep.accepted event now amount s'.hub e safe p) steps d
        (ap (λ r. r.1) h)

  -- A request that is delivered takes steps of the system, whatever both services do after the
  -- payee's bank was looked up.
  pub handle_requested-Reaches :
      (event : SettlementRequestedEvent)
      → Delivered bank_id s' event
      → HubReaches bank_id s (handle_requested event now meanwhile s.hub).1
  handle_requested-Reaches event d =
      requested event {out = handle_requested event now meanwhile s.hub} d (
        subst (λ h. Requesting event now h (handle_requested event now meanwhile s.hub)) (sym same)
          (handle_requested-Requesting event now meanwhile s.hub))

  replied :
      (event : SettlementReplyEvent) (row : SettlementRecord)
      {out : Result Error (Unit {0}) × HubDatabase}
      → Alone bank_id row s'.hub
      → Replying row event now s'.hub out
      → HubReaches bank_id s out.1
  replied event row w (Replying.failed e h) = (s', steps, sym (ap (λ r. r.1) h))
  replied event row w (Replying.confirms o h) =
      one_at_hub bank_id s' (HubStep.confirmed row event now s'.hub (row, w.0, Develops-refl row))
        steps (w, o) (ap (λ r. r.1) h)
  replied event row w (Replying.reverses o safe h) =
      one_at_hub bank_id s'
        (HubStep.reversed row event now s'.hub (row, w.0, Develops-refl row) safe) steps (w, o)
        (ap (λ r. r.1) h)

  -- A reply takes steps of the system, whatever both services do after the settlement was read, if
  -- no other reply to it is among that.
  pub handle_reply-Reaches :
      (event : SettlementReplyEvent)
      → find (has_id event.settlement_id) s'.hub.settlements
        ≡ find (has_id event.settlement_id) s.hub.settlements
      → HubReaches bank_id s (handle_reply event now meanwhile s.hub).1
  handle_reply-Reaches event alone = go (handle_reply-Resolution event now meanwhile s.hub)
    where
      go :
          {out : Result Error (Unit {0}) × HubDatabase}
          → Resolution event now meanwhile s.hub out
          → HubReaches bank_id s out.1
      go (Resolution.unknown e h) = (s, here, sym (ap (λ r. r.1) h))
      go (Resolution.ignored row e done h) = (s, here, sym (ap (λ r. r.1) h))
      go {out} (Resolution.applied row e waits r) =
          let id : event.settlement_id ≡ row.id = sym (
            (eq_iff row.id event.settlement_id).0
              (find_holds (has_id event.settlement_id) s.hub.settlements e)) in
          replied event row {out = out}
            (subst (λ i. find (has_id i) s'.hub.settlements ≡ some row) id (alone ∙ e), waits)
            (subst (λ h. Replying row event now h out) (sym same) r)

module _ (bank_id key : String) (params : InterbankTransferParams) (draw : Draw) (others : Others)
    (config : Config) (s s1 s2 : System) (first : Reach bank_id s s1) (second : Reach bank_id s1 s2)
    (same1 : s1.bank ≡ others.before_begin s.bank)
    (same2 : s2.bank ≡ others.after_rollback s1.bank) where
  executed :
      {out : Result BankError InterbankTransferResult × BankDatabase}
      → Execution key params draw others config s.bank out
      → Reaches bank_id s out.1
  executed (Execution.refused e h) = (s, here, sym (ap (λ r. r.1) h))
  executed (Execution.replayed r t held h) =
      (s, here, sym (ap (λ r. r.1) h ∙ replay-reads r t params s.bank))
  executed (Execution.aborted e h) = (s1, first, same1 ∙ sym (ap (λ r. r.1) h))
  executed (Execution.raced t h) = (
    s2,
    Reach-trans bank_id first second,
    same2
        ∙ ap others.after_rollback same1
        ∙ sym (
            ap (λ r. r.1) h
            ∙ replay_winner-reads key t params
                (others.after_rollback (others.before_begin s.bank))),
  )
  executed (Execution.requested t own_id made set fresh p covered h) =
      let row : TransferRow = row_of t key draw.now in
      let ref : InterbankTransferRecord = companion t params draw.now in
      let event : SettlementRequest = request t params own_id in
      (
        record s1 { bank = with_companion row ref event (post row s1.bank) },
        next first (
            at_bank s1
              (BankStep.requested row ref event s1.bank (subst (IsPostable row) (sym same1) p)
                (subst (IsCovered row) (sym same1) covered)
                (request-IsRequestFor key params draw t own_id made)
                (ap (λ b. exists (is_for row.id) b.interbank_transfers) same1 ∙ fresh))
              tt),
        ap (λ b. with_companion row ref event (post row b)) same1 ∙ sym (ap (λ r. r.1) h),
      )

  -- Opening a transfer to another bank takes steps of the system, whatever both services do between
  -- its statements.
  pub execute-Reaches :
      IsSafe params.amount.cents
      → Reaches bank_id s (execute key params draw others config s.bank).1
  execute-Reaches safe = executed (execute-Execution key params draw others config s.bank safe)
