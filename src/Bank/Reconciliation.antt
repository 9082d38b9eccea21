-- ===== src/Bank/Reconciliation.antt =====
-- The reconciliation sweep (src/interbank-transfers/reconciliation.service.ts). The Hub's answers
-- are a parameter: a function from a settlement's id to the response of `fetch`.
pub mod Sweeping
pub mod Progress
use distributed_payment_ledg.Prelude.{
  ℕ, String, ◌+◌, ◌-◌, Bool, true, false, ◌&&◌, Option, none, some, List, [], ◌∷◌, ◌==◌, nat_Eq,
  leb, if◌then◌else◌, length,
}
use distributed_payment_ledg.Exec.{pure, throw, gets, ◌>>=◌, ◌>>◌}
use distributed_payment_ledg.Bank.Domain.{fetch_failed}
use distributed_payment_ledg.Bank.Database.{Database, InterbankTransferRecord, Action}
use distributed_payment_ledg.Bank.Transfers.{Draw}
use distributed_payment_ledg.Bank.Interbank.{Config, get_or_throw, find_stale_debited}
use distributed_payment_ledg.Bank.Reply.{Outcome, SettlementOutcomeEvent, handle}

abbrev pub stale_after_ms : ℕ
stale_after_ms = 300000

pub data HubStatus : Type 0 where
  pending confirmed reversed rejected : HubStatus

pub record HubSettlementView : Type 0 where
  pub status : HubStatus
  pub reject_reason : Option String

-- What `fetch` gives: it throws, or it has a status and a body, which may fail to parse.
pub data Response : Type 0 where
  unreachable : Response
  answered : ℕ → Option HubSettlementView → Response

-- `response.ok`
abbrev pub is_ok : ℕ → Bool
is_ok status = leb 200 status && leb status 299

abbrev pub event_of : String → Outcome → Option String → SettlementOutcomeEvent
event_of id outcome reason = record { settlement_id = id; outcome = outcome; reason = reason }

-- What a settled view applies; `none` for PENDING.
abbrev pub outcome_of : HubStatus → Option Outcome
outcome_of HubStatus.pending = none
outcome_of HubStatus.confirmed = some Outcome.confirmed
outcome_of HubStatus.reversed = some Outcome.reversed
outcome_of HubStatus.rejected = some Outcome.rejected

module _ (draw : Draw) (meanwhile : Database → Database) where
  -- The event is handled, and something may have changed.
  abbrev pub apply_event : SettlementOutcomeEvent → Action Bool
  apply_event event = handle event draw meanwhile >> pure true

  abbrev pub apply_view : String → Option HubSettlementView → Action Bool
  apply_view id none = throw fetch_failed
  apply_view id (some view) = elim (outcome_of view.status) [
    | none ↦ pure false
    | some outcome ↦ apply_event (event_of id outcome view.reject_reason)
  ]

  unfoldable pub apply_response : String → Response → Action Bool
  apply_response id unreachable = throw fetch_failed
  apply_response id (answered status body) =
      if status == 404
      then apply_event (event_of id Outcome.rejected (some "RECONCILIATION_NO_RECORD_AT_HUB"))
      else if is_ok status
      then apply_view id body
      else pure false

-- What one sweep draws: the Hub's answer, the random id and the time for each transfer, and what
-- other requests commit while its outcome is applied.
pub record Sweep : Type 0 where
  pub hub : String → Response
  pub draw : String → Draw
  pub meanwhile : String → Database → Database

module _ (config : Config) (s : Sweep) where
  unfoldable pub reconcile_one : String → Action Bool
  reconcile_one id = do
    _ ← get_or_throw "HUB_URL" config.hub_url
    apply_response (s.draw id) (s.meanwhile id) id (s.hub id)

  abbrev pub tally : Bool → ℕ → ℕ
  tally changed n = if changed then n + 1 else n

  -- The loop over the stale transfers; a throw ends it.
  unfoldable pub reconcile_all : List InterbankTransferRecord → ℕ → Action ℕ
  reconcile_all [] reconciled = pure reconciled
  reconcile_all (row ∷ rows) reconciled = do
    changed ← reconcile_one row.transfer_id
    reconcile_all rows (tally changed reconciled)

  -- `sweep`: how many were checked, and how many reconciled.
  unfoldable pub sweep : ℕ → Action (ℕ × ℕ)
  sweep now = do
    stale ← find_stale_debited (now - stale_after_ms)
    reconciled ← reconcile_all stale 0
    pure (length stale, reconciled)

  -- `handleInterval`: what the sweep returns or throws is logged.
  unfoldable pub handle_interval : ℕ → Database → Database
  handle_interval now db = (sweep now db).1
