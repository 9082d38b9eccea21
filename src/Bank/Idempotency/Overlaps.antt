-- ===== src/Bank/Idempotency/Overlaps.antt =====
-- Two outcomes of one settlement of which the second is read before the first one commits.
use distributed_payment_ledg.Prelude.{ℕ, String, ◌≡◌, some, find, text_Eq}
use distributed_payment_ledg.Bank.Database.{
  TransferRow, Database, Status, InterbankTransferRecord, has_key, is_for,
}
use distributed_payment_ledg.Bank.Transfers.{Draw}
use distributed_payment_ledg.Bank.Interbank.{move_debited}
use distributed_payment_ledg.Bank.Reply.{SettlementOutcomeEvent, compensation_key}
use distributed_payment_ledg.Bank.Reply.Handling.{Handling}

module _ (event : SettlementOutcomeEvent) (draw : Draw) (at : ℕ) (db after : Database)
    (row : InterbankTransferRecord) where
  abbrev id : String
  id = event.settlement_id

  -- The confirmation that commits in between.
  abbrev pub confirms_first : Database → Database
  confirms_first = move_debited Status.confirmed at id

  -- The transfer is CONFIRMED for good, and its money was given back.
  pub record IsPaidTwice : Type 0 where
    pub final_row : InterbankTransferRecord
    pub found : find (is_for id) after.interbank_transfers ≡ some final_row
    pub confirmed : final_row.status ≡ Status.confirmed
    pub refund : TransferRow
    pub refunded : find (has_key (compensation_key id)) after.transfers ≡ some refund
