-- ===== src/Bank/Transfers/Locking.antt =====
-- The order in which `lockAccounts` takes its row locks.
use distributed_payment_ledg.Prelude.{String, ◌≡◌, ap}
use distributed_payment_ledg.Prelude.Texts.{sort_pair_comm}
use distributed_payment_ledg.Bank.Domain.{Transfer}
use distributed_payment_ledg.Bank.Transfers.{lock_accounts, lock_all}

-- A transfer between the same two accounts the other way round.
abbrev pub opposite : Transfer → String → Transfer
opposite t id = record t {
  id = id;
  payer_account_id = t.payee_account_id;
  payee_account_id = t.payer_account_id;
}

-- Two transfers between the same accounts, in either direction, lock the same rows in the same
-- order.
pub lock_accounts-opposite :
    (t : Transfer) (id : String) → lock_accounts (opposite t id) ≡ lock_accounts t
unfolding lock_accounts
lock_accounts-opposite t id = ap lock_all (sort_pair_comm t.payee_account_id t.payer_account_id)
