-- ===== src/Outbox/Claims.antt =====
-- Relays that run at the same time: SKIP LOCKED keeps the events that one has claimed from the other.
use mathlib.Core.List.{map-append}
use distributed_payment_ledg.Prelude.{
  ℕ, zero, suc, ◌+◌, ◌≤◌, ◌<◌, ◌≡◌, refl, sym, ap, ◌∙◌, Bool, true, false, not, ◌&&◌, inl, inr,
  List, [], ◌∷◌, ◌++◌, map, arith, ◌==◌, nat_Eq, Bool-cases, exists, select, select-append, take,
  drop, take-append-drop, All, All-map_lem,
}
use distributed_payment_ledg.Outbox.{
  OutboxRow, OutboxEvent, Table, to_event, is_unpublished, claim_unpublished,
}
use distributed_payment_ledg.Outbox.Queue.{pending, Ascends, IsOrdered}

module _ {ℓ} {P : Type ℓ} where
  -- The rows that a transaction has locked by claiming events.
  abbrev pub is_claimed : List (OutboxEvent P) → ℕ → Bool
  is_claimed events id = exists (λ e. e.id == id) events

  -- `claimUnpublished`, while another relay holds the locks of some rows.
  unfoldable pub claim_unlocked : (ℕ → Bool) → ℕ → Table P → List (OutboxEvent P)
  claim_unlocked locked limit t =
      map to_event (take limit (select (λ row. is_unpublished row && not (locked row.id)) t.rows))

  select-and :
      (p q : OutboxRow P → Bool) (rows : List (OutboxRow P))
      → select (λ row. p row && q row) rows ≡ select q (select p rows)
  select-and p q [] = refl
  select-and p q (row ∷ rows) = ground (arith, select-and p q rows)

  select-none :
      (p : OutboxRow P → Bool) (rows : List (OutboxRow P))
      → All (λ row. p row ≡ false) rows
      → select p rows ≡ []
  select-none p [] h = refl
  select-none p (row ∷ rows) h = rw h.0 (select-none p rows h.1)

  select-all :
      (p : OutboxRow P → Bool) (rows : List (OutboxRow P))
      → All (λ row. p row ≡ true) rows
      → select p rows ≡ rows
  select-all p [] h = refl
  select-all p (row ∷ rows) h = rw h.0 (ap (λ rs. row ∷ rs) (select-all p rows h.1))

  Ascends-le :
      (n m top : ℕ) (rows : List (OutboxRow P)) → n ≤ m → Ascends m top rows → Ascends n top rows
  Ascends-le n m top [] h a = omega arith
  Ascends-le n m top (row ∷ rows) h a = (omega (arith, a.0), a.1)

  Ascends-select :
      (p : OutboxRow P → Bool) (n top : ℕ) (rows : List (OutboxRow P))
      → Ascends n top rows
      → Ascends n top (select p rows)
  Ascends-select p n top [] a = a
  Ascends-select p n top (row ∷ rows) a = elim (Bool-cases (p row)) [
    | inl kept ↦ rw kept (a.0, Ascends-select p (suc row.id) top rows a.1)
    | inr gone ↦ rw gone (
        Ascends-le n (suc row.id) top (select p rows) (omega (arith, a.0))
          (Ascends-select p (suc row.id) top rows a.1))
  ]

  -- The ids of a batch are below those of the rest.
  parted :
      (k n top : ℕ) (rows : List (OutboxRow P))
      → Ascends n top rows
      → (m : ℕ) × (n ≤ m) × All (λ row. row.id < m) (take k rows) × Ascends m top (drop k rows)
  parted zero n top rows a = (n, omega arith, tt, a)
  parted (suc k) n top [] a = (n, omega arith, tt, a)
  parted (suc k) n top (row ∷ rows) a =
      let (m, above, below, rest) = parted k (suc row.id) top rows a.1 in
      (m, omega (arith, a.0, above), (omega (arith, above), below), rest)

  claimed-own :
      (rows : List (OutboxRow P))
      → All (λ row. not (is_claimed (map to_event rows) row.id) ≡ false) rows
  claimed-own [] = tt
  claimed-own (row ∷ rows) = (
    ground arith,
    All-map_lem (λ r (h : not (is_claimed (map to_event rows) r.id) ≡ false). ground arith) rows
        (claimed-own rows),
  )

  unclaimed-above :
      (m id : ℕ) (batch : List (OutboxRow P))
      → m ≤ id
      → All (λ row. row.id < m) batch
      → is_claimed (map to_event batch) id ≡ false
  unclaimed-above m id [] above h = refl
  unclaimed-above m id (row ∷ batch) above h =
      ground (arith, h.0, unclaimed-above m id batch above h.1)

  unclaimed-rest :
      (batch : List (OutboxRow P)) (m n top : ℕ) (rows : List (OutboxRow P))
      → m ≤ n
      → All (λ row. row.id < m) batch
      → Ascends n top rows
      → All (λ row. not (is_claimed (map to_event batch) row.id) ≡ true) rows
  unclaimed-rest batch m n top [] above h a = tt
  unclaimed-rest batch m n top (row ∷ rows) above h a = (
    rw (unclaimed-above m row.id batch (omega (arith, a.0)) h) refl,
    unclaimed-rest batch m (suc row.id) top rows (omega (arith, a.0)) h a.1,
  )

  -- What is pending and not claimed is the rest of the queue.
  select-unclaimed :
      (k top : ℕ) (rows : List (OutboxRow P))
      → Ascends 0 top rows
      → select (λ row. not (is_claimed (map to_event (take k rows)) row.id)) rows ≡ drop k rows
  select-unclaimed k top rows a =
      let free : OutboxRow P → Bool = λ row. not (is_claimed (map to_event (take k rows)) row.id) in
      let (m, above, below, rest) = parted k 0 top rows a in
      ap (select free) (sym (take-append-drop k rows))
      ∙ select-append free (take k rows) (drop k rows)
      ∙ ap (λ rs. rs ++ select free (drop k rows))
          (select-none free (take k rows) (claimed-own (take k rows)))
      ∙ select-all free (drop k rows)
          (unclaimed-rest (take k rows) m m top (drop k rows) (omega arith) below rest)

  take-add :
      (n m : ℕ) (rows : List (OutboxRow P))
      → take n rows ++ take m (drop n rows) ≡ take (n + m) rows
  take-add zero m rows = let e : m ≡ 0 + m = omega arith in ap (λ k. take k rows) e
  take-add (suc n) zero [] = let e : suc (n + 0) ≡ suc n + 0 = omega arith in rw (sym e) refl
  take-add (suc n) (suc m) [] =
      let e : suc (n + suc m) ≡ suc n + suc m = omega arith in rw (sym e) refl
  take-add (suc n) m (row ∷ rows) =
      let e : suc (n + m) ≡ suc n + m = omega arith in
      rw (sym e) (ap (λ rs. row ∷ rs) (take-add n m rows))

  -- If the ids of the outbox rise, two relays that claim at the same time claim consecutive batches
  -- of the pending events: the second one skips what the first one has locked, and no event between.
  pub claims_consecutive :
      (n m : ℕ) (t : Table P)
      → IsOrdered t
      → claim_unpublished n t ++ claim_unlocked (is_claimed (claim_unpublished n t)) m t
        ≡ map to_event (take (n + m) (pending t))
  unfolding claim_unpublished claim_unlocked
  claims_consecutive n m t a =
      let rows : List (OutboxRow P) = pending t in
      let free : OutboxRow P → Bool = λ row. not (is_claimed (map to_event (take n rows)) row.id) in
      ap (λ rs. map to_event (take n rows) ++ map to_event (take m rs))
        (select-and is_unpublished free t.rows
          ∙ select-unclaimed n t.next_id rows (Ascends-select is_unpublished 0 t.next_id t.rows a))
      ∙ sym (map-append to_event (take n rows) (take m (drop n rows)))
      ∙ ap (map to_event) (take-add n m rows)
