-- ===== src/Hub/Banks.antt =====
-- The directory of banks (hub/src/banks): the repository and the service.
use distributed_payment_ledg.Prelude.{
  ℕ, String, not, ◌&&◌, Option, none, some, List, [], ◌∷◌, ◌++◌, ◌==◌, text_Eq, find, if◌then◌else◌,
}
use distributed_payment_ledg.Exec.{err, pure, throw_if, gets, modify, ◌>>=◌, ◌>>◌}
use distributed_payment_ledg.Money.{Money}
use distributed_payment_ledg.Hub.Domain.{Bank, database, bank_not_found, duplicate_bank}
use distributed_payment_ledg.Hub.Database.{Database, has_bank, length_within, Action, raise}
use distributed_payment_ledg.Hub.Ledger.{reserve_balance_of}

abbrev pub add_bank : Bank → Database → Database
add_bank bank db = record db { banks = db.banks ++ bank ∷ [] }

-- `INSERT … ON CONFLICT (id) DO NOTHING`, after the checks of the table.
unfoldable pub create : String → String → String → ℕ → Action (Option Bank)
create id name base_url now = do
  let bank : Bank = record { id = id; name = name; base_url = base_url; created_at = now }
  throw_if (not (length_within 64 id && length_within 120 name && length_within 255 base_url))
      database
  taken ← gets (has_bank id)
  if taken then pure none else modify (add_bank bank) >> pure (some bank)

unfoldable pub find_by_id : String → Action (Option Bank)
find_by_id id = gets (λ db. find (λ b. b.id == id) db.banks)

-- `ORDER BY created_at`: the order of the table, whose clock does not run back.
unfoldable pub find_all : Action (List Bank)
find_all = gets (λ db. db.banks)

unfoldable pub register_bank : String → String → String → ℕ → Action Bank
register_bank id name base_url now = do
  bank ← create id name base_url now
  elim bank [ none ↦ raise (err (duplicate_bank id)) | some b ↦ pure b ]

unfoldable pub get_bank : String → Action Bank
get_bank id = do
  bank ← find_by_id id
  elim bank [ none ↦ raise (err (bank_not_found id)) | some b ↦ pure b ]

unfoldable pub list_banks : Action (List Bank)
list_banks = find_all

unfoldable pub get_reserve_balance : String → Action Money
get_reserve_balance id = do get_bank id; reserve_balance_of id
