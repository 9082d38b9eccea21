-- ===== src/Bank/Invariant/History.antt =====
-- Facts are only added: accounts, transfers and entries are never rewritten or removed.
use mathlib.Core.List.{append-nil, append_assoc}
use distributed_payment_ledg.Prelude.{
  String, ◌≡◌, refl, sym, ◌∙◌, ap, some, List, [], ◌∷◌, ◌++◌, find, find-append_some,
}
use distributed_payment_ledg.Bank.Domain.{Account}
use distributed_payment_ledg.Bank.Database.{TransferRow, EntryRow, Database, has_key}
use distributed_payment_ledg.Bank.Posting.{journal}
use distributed_payment_ledg.Bank.Step.{Step, Reach, here, next}

-- `b` holds the facts of `a`, in place, and perhaps more after them.
pub record Extends (a b : Database) : Type 0 where
  pub new_accounts : List Account
  pub new_transfers : List TransferRow
  pub new_entries : List EntryRow
  pub accounts : b.accounts ≡ a.accounts ++ new_accounts
  pub transfers : b.transfers ≡ a.transfers ++ new_transfers
  pub ledger_entries : b.ledger_entries ≡ a.ledger_entries ++ new_entries

-- Rows that an update of other tables leaves alone.
pub Extends-same :
    {a b : Database}
    → b.accounts ≡ a.accounts
    → b.transfers ≡ a.transfers
    → b.ledger_entries ≡ a.ledger_entries
    → Extends a b
Extends-same {a} p q r = record {
  new_accounts = [];
  new_transfers = [];
  new_entries = [];
  accounts = p ∙ sym (append-nil a.accounts);
  transfers = q ∙ sym (append-nil a.transfers);
  ledger_entries = r ∙ sym (append-nil a.ledger_entries);
}

Extends-post :
    (row : TransferRow) {a b : Database}
    → b.accounts ≡ a.accounts
    → b.transfers ≡ a.transfers ++ row ∷ []
    → b.ledger_entries ≡ a.ledger_entries ++ journal row
    → Extends a b
Extends-post row {a} p q r = record {
  new_accounts = [];
  new_transfers = row ∷ [];
  new_entries = journal row;
  accounts = p ∙ sym (append-nil a.accounts);
  transfers = q;
  ledger_entries = r;
}

Extends-trans : {a b c : Database} → Extends a b → Extends b c → Extends a c
Extends-trans {a} ab bc = record {
  new_accounts = ab.new_accounts ++ bc.new_accounts;
  new_transfers = ab.new_transfers ++ bc.new_transfers;
  new_entries = ab.new_entries ++ bc.new_entries;
  accounts =
      bc.accounts
      ∙ ap (λ xs. xs ++ bc.new_accounts) ab.accounts
      ∙ append_assoc a.accounts ab.new_accounts bc.new_accounts;
  transfers =
      bc.transfers
      ∙ ap (λ xs. xs ++ bc.new_transfers) ab.transfers
      ∙ append_assoc a.transfers ab.new_transfers bc.new_transfers;
  ledger_entries =
      bc.ledger_entries
      ∙ ap (λ xs. xs ++ bc.new_entries) ab.ledger_entries
      ∙ append_assoc a.ledger_entries ab.new_entries bc.new_entries;
}

Step-Extends : {a b : Database} → Step a b → Extends a b
Step-Extends (Step.account_opened a db free) = record {
  new_accounts = a ∷ [];
  new_transfers = [];
  new_entries = [];
  accounts = refl;
  transfers = sym (append-nil db.transfers);
  ledger_entries = sym (append-nil db.ledger_entries);
}
Step-Extends (Step.transferred row db p covered) = Extends-post row refl refl refl
Step-Extends (Step.seeded row db p treasury) = Extends-post row refl refl refl
Step-Extends (Step.requested row ref request db p covered q fresh) = Extends-post row refl refl refl
Step-Extends (Step.confirmed id now db) = Extends-same refl refl refl
Step-Extends (Step.refunded original id row now db e p refund) = Extends-post row refl refl refl
Step-Extends (Step.closed id earlier now db e) = Extends-same refl refl refl
Step-Extends (Step.published id now db) = Extends-same refl refl refl

-- Any committed transactions leave every account, transfer and entry in place and append the new
-- ones.
pub Reach-Extends : {a b : Database} → Reach a b → Extends a b
Reach-Extends here = Extends-same refl refl refl
Reach-Extends (next r s) = Extends-trans (Reach-Extends r) (Step-Extends s)

-- A key that names a transfer names it for ever.
pub Reach-find_key :
    {a b : Database} (key : String) (row : TransferRow)
    → Reach a b
    → find (has_key key) a.transfers ≡ some row
    → find (has_key key) b.transfers ≡ some row
Reach-find_key {a} key row r h =
    let e = Reach-Extends r in
    rw e.transfers (find-append_some (has_key key) a.transfers e.new_transfers h)
