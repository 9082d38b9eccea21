-- ===== src/Exec.antt =====
-- Asynchronous methods over a database: each is a function of the state that returns a result or
-- throws, and the state that it left. `transaction` is the BEGIN / COMMIT / ROLLBACK frame.
use distributed_payment_ledg.Prelude.{◌≡◌, refl, ◌⊎◌, inl, inr, Bool, true, false}

pub data Result {ℓ κ} (E : Type ℓ) (A : Type κ) : Type (ℓ ⊔ κ) where
  ok : A → Result E A
  err : E → Result E A

abbrev pub Exec {ℓ κ ι} : Type ℓ → Type κ → Type ι → Type (ℓ ⊔ κ ⊔ ι)
Exec E S A = S → Result E A × S

module _ {ℓ κ ι} {E : Type ℓ} {S : Type κ} {A : Type ι} where
  abbrev pub pure : A → Exec E S A
  pure a s = (ok a, s)

  abbrev pub throw : E → Exec E S A
  throw e s = (err e, s)

  abbrev pub gets : (S → A) → Exec E S A
  gets f s = (ok (f s), s)

  abbrev pub lift : Result E A → Exec E S A
  lift r s = (r, s)

module _ {ℓ κ} {E : Type ℓ} {S : Type κ} where
  abbrev pub modify : (S → S) → Exec E S (Unit {0})
  modify f s = (ok tt, f s)

  -- `if (condition) throw error`
  abbrev pub throw_if : Bool → E → Exec E S (Unit {0})
  throw_if true e s = (err e, s)
  throw_if false e s = (ok tt, s)

module _ {ℓ κ ι μ} {E : Type ℓ} {S : Type κ} {A : Type ι} {B : Type μ} where
  infixl 5 ◌>>=◌ ◌>>◌
  abbrev pub ◌>>=◌ : Exec E S A → (A → Exec E S B) → Exec E S B
  ◌>>=◌ m f s = let (r, s') = m s in elim r [ ok a ↦ f a s' | err e ↦ (err e, s') ]

  abbrev pub ◌>>◌ : Exec E S A → Exec E S B → Exec E S B
  m >> k = m >>= λ _. k

-- How the body of a transaction ends, if it does not throw.
pub data Ending {ℓ} (A : Type ℓ) : Type ℓ where
  commit : A → Ending A
  rollback : A → Ending A

-- BEGIN; the body; then COMMIT, or ROLLBACK where the body asks for it or throws.
abbrev pub transaction {ℓ κ ι} :
    {E : Type ℓ} {S : Type κ} {A : Type ι} → Exec E S (Ending A) → Exec E S A
transaction body s =
    let (r, s') = body s in
    elim r [ ok (commit a) ↦ (ok a, s') | ok (rollback a) ↦ (ok a, s) | err e ↦ (err e, s) ]

module _ {ℓ κ ι} {E : Type ℓ} {E' : Type κ} {A : Type ι} where
  -- The same failure, seen as an error of the caller.
  abbrev pub map_err : (E → E') → Result E A → Result E' A
  map_err f (ok a) = ok a
  map_err f (err e) = err (f e)

pub Result-cases {ℓ κ} :
    {E : Type ℓ} {A : Type κ} (r : Result E A) → ((a : A) × (r ≡ ok a)) ⊎ ((e : E) × (r ≡ err e))
Result-cases (ok a) = inl (a, refl)
Result-cases (err e) = inr (e, refl)
