-- ===== src/System/Agreement/Kept.antt =====
-- Steps of both services keep their agreement.
use distributed_payment_ledg.Prelude.{nat_Eq, text_Eq}
use distributed_payment_ledg.Bank.Database.{Database as BankDatabase}
use distributed_payment_ledg.System.{System}
