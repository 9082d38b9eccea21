-- ===== src/System/Refinement/Outcomes.antt =====
-- How the bank learns an outcome: `InterbankReplyService.handle` for an event of the Hub, and
-- `reconcileOne` with the Hub's answer (src/interbank-transfers).
use distributed_payment_ledg.Prelude.{
  String, ◌≡◌, ◌≢◌, refl, sym, subst, ap, inl, inr, nat_Eq, Option,
}
use distributed_payment_ledg.Exec.{Result}
use distributed_payment_ledg.Bank.Domain.{Error}
use distributed_payment_ledg.Bank.Database.{Database as BankDatabase}
use distributed_payment_ledg.Bank.Transfers.{Draw}
use distributed_payment_ledg.Bank.Reply.{Outcome, SettlementOutcomeEvent, handle}
use distributed_payment_ledg.Bank.Reply.Handling.{
  Application, Compensation, Handling, handle-Handling,
}
use distributed_payment_ledg.Bank.Step.Refinement.Reply.{refund-IsRefundOf}
use distributed_payment_ledg.Bank.Step as BankStep
use distributed_payment_ledg.Hub.Database as HubData
use distributed_payment_ledg.System.{
  System, outcome_received, event_received, Told, ToldUndone, Warranted, at_bank, Reach, here, next,
  Reach-trans,
}
use distributed_payment_ledg.System.Telling.{Told-Reach}

-- A state of the system in which the bank has this database.
abbrev pub Reaches : String → System → BankDatabase → Type 0
Reaches bank_id s bank = (s' : System) × Reach bank_id s s' × (s'.bank ≡ bank)

one_at_bank :
    (bank_id : String) (s : System) {bank : BankDatabase} (p : BankStep.Step s.bank bank)
    {after : BankDatabase}
    → Warranted bank_id s p
    → after ≡ bank
    → Reaches bank_id s after
one_at_bank bank_id s {bank} p w h = (record s { bank = bank }, next here (at_bank s p w), sym h)

module _ (bank_id : String) (id : String) (draw : Draw) where
  told_undone :
      (s : System) (o : HubData.Outcome)
      → outcome_received o ≢ Outcome.confirmed
      → Told bank_id s id o
      → ToldUndone bank_id s id
  told_undone s HubData.Outcome.confirmed undo t = absurd (undo refl)
  told_undone s HubData.Outcome.reversed undo t = inl t
  told_undone s HubData.Outcome.rejected undo t = inr t

  told_confirmed :
      (s : System) (o : HubData.Outcome)
      → outcome_received o ≡ Outcome.confirmed
      → Told bank_id s id o
      → Told bank_id s id HubData.Outcome.confirmed
  told_confirmed s HubData.Outcome.confirmed e t = t
  told_confirmed s HubData.Outcome.reversed e t = absurd (cc)
  told_confirmed s HubData.Outcome.rejected e t = absurd (cc)

  module _ (o : HubData.Outcome) (reason : Option String) where
    abbrev event : SettlementOutcomeEvent
    event = event_received id o reason

    applied :
        (s : System) {out : Result Error (Unit {0}) × BankDatabase}
        → Told bank_id s id o
        → Application event draw s.bank out
        → Reaches bank_id s out.1
    applied s t (Application.failed e h) = (s, here, sym (ap (λ r. r.1) h))
    applied s t (Application.confirms e h) =
        one_at_bank bank_id s (BankStep.confirmed id draw.now s.bank) (told_confirmed s o e t)
          (ap (λ r. r.1) h)
    applied s t (Application.compensates undo stored r e of_row (Compensation.failed why h)) =
        (s, here, sym (ap (λ r. r.1) h))
    applied s t (Application.compensates undo stored r e of_row (Compensation.refunds p h)) =
        one_at_bank bank_id s
          (BankStep.refunded stored id _ draw.now s.bank e p
            (refund-IsRefundOf stored r id draw.uuid draw.now of_row))
          (told_undone s o undo t) (ap (λ r. r.1) h)
    applied s t (Application.compensates undo stored r e of_row (Compensation.closes earlier k h)) =
        one_at_bank bank_id s (BankStep.closed id earlier draw.now s.bank k)
          (told_undone s o undo t) (ap (λ r. r.1) h)

    -- Handling an outcome that the bank was told takes steps of the system, whatever both services
    -- do after the transfer's status was read.
    pub handle-Reaches :
        (meanwhile : BankDatabase → BankDatabase) (s s' : System)
        → Reach bank_id s s'
        → s'.bank ≡ meanwhile s.bank
        → Told bank_id s id o
        → Reaches bank_id s (handle event draw meanwhile s.bank).1
    handle-Reaches meanwhile s s' steps same t = go (handle-Handling event draw meanwhile s.bank)
      where
        go :
            {out : Result Error (Unit {0}) × BankDatabase}
            → Handling event draw meanwhile s.bank out
            → Reaches bank_id s out.1
        go (Handling.unknown k h) = (s, here, sym (ap (λ r. r.1) h))
        go (Handling.ignored row k d h) = (s, here, sym (ap (λ r. r.1) h))
        go {out} (Handling.applied row k d a) =
            let (s'', more, e) =
              applied s' {out = out} (Told-Reach bank_id id o steps t)
                (subst (λ b. Application event draw b out) (sym same) a) in
            (s'', Reach-trans bank_id steps more, e)
