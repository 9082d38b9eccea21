-- ===== src/Prelude/Lists.antt =====
-- Lists measured by native numbers, and the queries of a table as list functions.
use Prim.Native.Nat.{ℕ, zero, suc, ◌+◌, ◌-◌, ◌≤◌}
use mathlib.Core.Path.{◌≡◌, refl, subst}
use mathlib.Core.Logic.{inl, inr}
use mathlib.Core.Bool.{Bool, true, false, ◌||◌}
use mathlib.Core.Option.{Option, none, some}
use mathlib.Core.List.{List, [], ◌∷◌, ◌++◌}
use native.Mathlib.Omega.{arith}
use distributed_payment_ledg.Prelude.Tests.{if◌then◌else◌, Bool-cases}

module _ {ℓ} {A : Type ℓ} where
  abbrev pub length : List A → ℕ
  length [] = 0
  length (x ∷ xs) = suc (length xs)

  abbrev pub take : ℕ → List A → List A
  take zero xs = []
  take (suc n) [] = []
  take (suc n) (x ∷ xs) = x ∷ take n xs

  -- The rows of a table that pass a test (`SELECT … WHERE`), in the order of the table.
  abbrev pub select : (A → Bool) → List A → List A
  select p [] = []
  select p (x ∷ xs) = let rest = select p xs in if p x then x ∷ rest else rest

  -- The first row that passes (`rows[0] ? … : null`).
  abbrev pub find : (A → Bool) → List A → Option A
  find p [] = none
  find p (x ∷ xs) = if p x then some x else find p xs

  -- Rewrites the rows that pass (`UPDATE … WHERE`).
  abbrev pub update : (A → Bool) → (A → A) → List A → List A
  update p f [] = []
  update p f (x ∷ xs) = (if p x then f x else x) ∷ update p f xs

  -- A predicate at every row.
  abbrev pub All {κ} : (A → Type κ) → List A → Type κ
  All P [] = Unit
  All P (x ∷ xs) = P x × All P xs

  pub length-append : (xs ys : List A) → length (xs ++ ys) ≡ length xs + length ys
  length-append [] ys = omega arith
  length-append (x ∷ xs) ys = omega (arith, length-append xs ys)

  pub find-append_some :
      (p : A → Bool) (xs ys : List A) {a : A} → find p xs ≡ some a → find p (xs ++ ys) ≡ some a
  find-append_some p [] ys h = cc
  find-append_some p (x ∷ xs) ys {a} h = ground (arith, find-append_some p xs ys {a = a})

  -- Whether some row passes (`rows.length > 0`, and a foreign key's check).
  abbrev pub exists : (A → Bool) → List A → Bool
  exists p [] = false
  exists p (x ∷ xs) = p x || exists p xs

  pub exists-append :
      (p : A → Bool) (xs ys : List A) → exists p (xs ++ ys) ≡ (exists p xs || exists p ys)
  exists-append p [] ys = refl
  exists-append p (x ∷ xs) ys = ground (arith, exists-append p xs ys)

  pub find-append_none :
      (p : A → Bool) (xs ys : List A) → find p xs ≡ none → find p (xs ++ ys) ≡ find p ys
  find-append_none p [] ys h = refl
  find-append_none p (x ∷ xs) ys h = ground (arith, find-append_none p xs ys)

  -- What `find` returns passes the test.
  pub find_holds : (p : A → Bool) (xs : List A) {a : A} → find p xs ≡ some a → p a ≡ true
  find_holds p [] h = ground arith
  find_holds p (x ∷ xs) {a} h = ground (arith, find_holds p xs {a = a})

  pub find-none_of_exists : (p : A → Bool) (xs : List A) → exists p xs ≡ false → find p xs ≡ none
  find-none_of_exists p [] h = refl
  find-none_of_exists p (x ∷ xs) h = ground (arith, find-none_of_exists p xs)

  pub All-append {κ} : (P : A → Type κ) (xs ys : List A) → All P xs → All P ys → All P (xs ++ ys)
  All-append P [] ys hx hy = hy
  All-append P (x ∷ xs) ys hx hy = (hx.0, All-append P xs ys hx.1 hy)

  pub All-map_lem {κ μ} :
      {P : A → Type κ} {Q : A → Type μ} (f : (a : A) → P a → Q a) (xs : List A)
      → All P xs
      → All Q xs
  All-map_lem f [] h = tt
  All-map_lem f (x ∷ xs) h = (f x h.0, All-map_lem f xs h.1)

  abbrev pub drop : ℕ → List A → List A
  drop zero xs = xs
  drop (suc n) [] = []
  drop (suc n) (x ∷ xs) = drop n xs

  pub take-append-drop : (n : ℕ) (xs : List A) → take n xs ++ drop n xs ≡ xs
  take-append-drop zero xs = refl
  take-append-drop (suc n) [] = refl
  take-append-drop (suc n) (x ∷ xs) = rw (take-append-drop n xs)

  pub length-drop : (n : ℕ) (xs : List A) → length (drop n xs) ≡ length xs - n
  length-drop zero xs = omega arith
  length-drop (suc n) [] = omega arith
  length-drop (suc n) (x ∷ xs) = omega (arith, length-drop n xs)

  pub length-take-le : (n : ℕ) (xs : List A) → length (take n xs) ≤ n
  length-take-le zero xs = omega arith
  length-take-le (suc n) [] = omega arith
  length-take-le (suc n) (x ∷ xs) = omega (arith, length-take-le n xs)

  pub select-append :
      (p : A → Bool) (xs ys : List A) → select p (xs ++ ys) ≡ select p xs ++ select p ys
  select-append p [] ys = refl
  select-append p (x ∷ xs) ys = ground (arith, select-append p xs ys)

  -- A predicate at some row.
  pub data Any {κ} (P : A → Type κ) : List A → Type (ℓ ⊔ κ) where
    at_head : {x : A} {xs : List A} → P x → Any P (x ∷ xs)
    in_tail : {x : A} {xs : List A} → Any P xs → Any P (x ∷ xs)

  pub All-Any {κ μ} :
      {P : A → Type κ} {Q : A → Type μ} (xs : List A) → All P xs → Any Q xs → (a : A) × P a × Q a
  All-Any [] h q = elim q [ ]
  All-Any (x ∷ xs) h (at_head q) = (x, h.0, q)
  All-Any (x ∷ xs) h (in_tail q) = All-Any xs h.1 q

  pub Any-append {κ} : {P : A → Type κ} (xs ys : List A) → Any P xs → Any P (xs ++ ys)
  Any-append [] ys h = elim h [ ]
  Any-append (x ∷ xs) ys (at_head h) = at_head h
  Any-append (x ∷ xs) ys (in_tail h) = in_tail (Any-append xs ys h)

  pub Any-map_lem {κ μ} :
      {P : A → Type κ} {Q : A → Type μ} (f : (a : A) → P a → Q a) (xs : List A)
      → Any P xs
      → Any Q xs
  Any-map_lem f [] h = elim h [ ]
  Any-map_lem f (x ∷ xs) (at_head h) = at_head (f x h)
  Any-map_lem f (x ∷ xs) (in_tail h) = in_tail (Any-map_lem f xs h)

  -- An update of some rows that keeps what holds of each.
  pub Any-update {κ} :
      {P : A → Type κ} (p : A → Bool) (f : A → A) (xs : List A)
      → ((a : A) → P a → P (f a))
      → Any P xs
      → Any P (update p f xs)
  Any-update p f [] keep h = elim h [ ]
  Any-update {P = P} p f (x ∷ xs) keep (at_head h) = at_head (kept (p x))
    where
      kept : (b : Bool) → P (if b then f x else x)
      kept true = keep x h
      kept false = h
  Any-update p f (x ∷ xs) keep (in_tail h) = in_tail (Any-update p f xs keep h)

  pub All-find {κ} :
      (P : A → Type κ) (p : A → Bool) (xs : List A) {a : A} → All P xs → find p xs ≡ some a → P a
  All-find P p [] h e = absurd (ground arith)
  All-find P p (x ∷ xs) {a} (hx, hxs) e = elim (Bool-cases (p x)) [
    | inl hit ↦ subst P (ground arith) hx
    | inr miss ↦ All-find P p xs hxs (ground arith)
  ]
