-- ===== src/Migrate/Rerun.antt =====
-- What a run that succeeds has applied, and that it leaves nothing to do.
use distributed_payment_ledg.Prelude.{String, not, List, text_Eq, select}
use distributed_payment_ledg.Migrate.{has}

-- The files of a run that had not been applied.
abbrev pub new_files : List String → List String → List String
new_files known files = select (λ file. not (has file known)) files
