-- ===== src/Migrate.antt =====
-- The migration runner (scripts/migrate.ts; hub/scripts/migrate.ts is the same but for its lock's key).
-- The advisory lock keeps other runners out for the whole run. What a file's SQL does to the schema,
-- or that it fails, is a parameter.
pub mod Rerun
mod Tests
use Prim.Native.Nat.{Ordering}
use Prim.Native.String.{compare}
use Prim.Native.String
use distributed_payment_ledg.Prelude.{
  String, Bool, true, false, ◌||◌, Option, none, some, List, [], ◌∷◌, ◌++◌, ◌==◌, text_Eq, exists,
  select, if◌then◌else◌,
}
use distributed_payment_ledg.Exec.{Result, ok, err, Exec}

-- The schema of the application, and the names in `schema_migrations`.
pub record State {ℓ} (S : Type ℓ) : Type ℓ where
  pub schema : S
  pub applied : List String

-- `migration ${file} failed`
pub data MigrateError : Type 0 where
  failed : String → MigrateError

-- `text.endsWith(suffix)`
ends_with : String → String → Bool
ends_with suffix String.[] = String.[] == suffix
ends_with suffix (String.◌∷◌ c text) = String.◌∷◌ c text == suffix || ends_with suffix text

-- `.sort()`, as an insertion sort.
place : String → List String → List String
place file [] = file ∷ []
place file (other ∷ files) = elim (compare other file) [
  | Ordering.lt ↦ other ∷ place file files
  | Ordering.eq ↦ file ∷ other ∷ files
  | Ordering.gt ↦ file ∷ other ∷ files
]

unfoldable pub sort : List String → List String
unfolding place
sort [] = []
sort (file ∷ files) = place file (sort files)

-- The files that are migrations, in their order.
unfoldable pub migrations : List String → List String
unfolding ends_with
migrations files = sort (select (ends_with ".sql") files)

abbrev pub has : String → List String → Bool
has file names = exists (λ name. name == file) names

module _ {ℓ} {S : Type ℓ} (sql : String → S → Option S) where
  -- One file's transaction: its SQL, and its name, which is a primary key.
  unfoldable pub apply_file : String → State S → Option (State S)
  apply_file file s = elim (sql file s.schema) [
    | none ↦ none
    | some schema ↦
        if has file s.applied
        then none
        else some (record { schema = schema; applied = s.applied ++ file ∷ [] })
  ]

  -- The loop over the files, for the names that had been applied when it began.
  unfoldable pub apply_all : List String → List String → Exec MigrateError (State S) (Unit {0})
  apply_all known [] s = (ok tt, s)
  apply_all known (file ∷ files) s =
      if has file known then apply_all known files s else elim (apply_file file s) [
        | none ↦ (err (failed file), s)
        | some after ↦ apply_all known files after
      ]

  -- `migrate`, with what `readdir` returned.
  unfoldable pub migrate : List String → Exec MigrateError (State S) (Unit {0})
  migrate files s = apply_all s.applied (migrations files) s
