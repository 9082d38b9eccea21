-- ===== src/Migrate/Tests.antt =====
-- A run of the migrations over a schema that is a list of statements.
use distributed_payment_ledg.Prelude.{String, Option, some, List, [], ◌∷◌, ◌++◌}
use distributed_payment_ledg.Migrate.{State}

abbrev run_sql : String → List String → Option (List String)
run_sql file schema = some (schema ++ file ∷ [])

abbrev folder : List String
folder = "002_b.sql" ∷ "README.md" ∷ "003_c.sql" ∷ "001_a.sql" ∷ []

abbrev before : State (List String)
before = record { schema = "001_a.sql" ∷ []; applied = "001_a.sql" ∷ [] }

abbrev done : State (List String)
done = record {
  schema = "001_a.sql" ∷ "002_b.sql" ∷ "003_c.sql" ∷ [];
  applied = "001_a.sql" ∷ "002_b.sql" ∷ "003_c.sql" ∷ [];
}
