-- ===== src/Outbox/Queue.antt =====
-- The outbox as a queue: what is still to publish, in the order of the ids.
use distributed_payment_ledg.Prelude.{
  ℕ, suc, ◌≤◌, ◌<◌, String, ◌≡◌, refl, none, some, List, [], ◌∷◌, ◌++◌, arith, ◌==◌, nat_Eq, select,
  update, select-append, Option-cases, inl, inr,
}
use native.Mathlib.Numerals.{add-one}
use distributed_payment_ledg.Outbox.{OutboxRow, Table, insert, is_unpublished, mark_published}

module _ {ℓ} {P : Type ℓ} where
  -- The rows that are still to publish.
  abbrev pub pending : Table P → List (OutboxRow P)
  pending t = select is_unpublished t.rows

  -- Ids rise, from `n` on, and stay below the next one.
  abbrev pub Ascends : ℕ → ℕ → List (OutboxRow P) → Type 0
  Ascends n top [] = n ≤ top
  Ascends n top (row ∷ rows) = (n ≤ row.id) × Ascends (suc row.id) top rows

  abbrev pub IsOrdered : Table P → Type 0
  IsOrdered t = Ascends 0 t.next_id t.rows

  abbrev publish_row : ℕ → OutboxRow P → OutboxRow P
  publish_row now row = record row { published_at = some now }

  abbrev pub marked : ℕ → ℕ → List (OutboxRow P) → List (OutboxRow P)
  marked now id rows =
      update (λ row. row.id == id) (λ row. record row { published_at = some now }) rows

  -- An id below all others marks nothing.
  marked-below :
      (now id n top : ℕ) (rows : List (OutboxRow P))
      → id < n
      → Ascends n top rows
      → marked now id rows ≡ rows
  marked-below now id n top [] h a = refl
  marked-below now id n top (row ∷ rows) h a =
      ground (arith, marked-below now id (suc row.id) top rows)

  -- Marking the first pending row takes it off the queue.
  select-marked :
      (now n top : ℕ) (rows : List (OutboxRow P)) (first : OutboxRow P) (rest : List (OutboxRow P))
      → Ascends n top rows
      → select is_unpublished rows ≡ first ∷ rest
      → select is_unpublished (marked now first.id rows) ≡ rest
  select-marked now n top [] first rest a h = ground arith
  select-marked now n top (row ∷ rows) first rest a h = elim (Option-cases row.published_at) [
    | inl unpublished ↦ ground (arith, marked-below now row.id (suc row.id) top rows)
    | inr (at, published) ↦ ground (arith, select-marked now (suc row.id) top rows first rest)
  ]

  Ascends-marked :
      (now id n top : ℕ) (rows : List (OutboxRow P))
      → Ascends n top rows
      → Ascends n top (marked now id rows)
  Ascends-marked now id n top [] a = a
  Ascends-marked now id n top (row ∷ rows) a =
      ground (arith, Ascends-marked now id (suc row.id) top rows)

  Ascends-append :
      (n top : ℕ) (rows : List (OutboxRow P)) (row : OutboxRow P)
      → Ascends n top rows
      → row.id ≡ top
      → Ascends n (suc top) (rows ++ row ∷ [])
  Ascends-append n top [] row a e = omega arith
  Ascends-append n top (x ∷ xs) row a e = (a.0, Ascends-append (suc x.id) top xs row a.1 e)

  -- A new event goes to the end of the queue, and the ids stay ordered.
  pub pending-insert :
      (aggregate_id event_type routing_key : String) (payload : P) (t : Table P)
      → (new : OutboxRow P) × (pending (insert aggregate_id event_type routing_key payload t)
          ≡ pending t ++ new ∷ [])
        × (new.routing_key ≡ routing_key)
        × (new.payload ≡ payload)
  unfolding insert
  pending-insert aggregate_id event_type routing_key payload t = (
    record {
      id = t.next_id;
      aggregate_id = aggregate_id;
      event_type = event_type;
      routing_key = routing_key;
      payload = payload;
      published_at = none;
    },
    select-append is_unpublished t.rows _,
    refl,
    refl,
  )

  pub insert-IsOrdered :
      (aggregate_id event_type routing_key : String) (payload : P) (t : Table P)
      → IsOrdered t
      → IsOrdered (insert aggregate_id event_type routing_key payload t)
  unfolding insert
  insert-IsOrdered aggregate_id event_type routing_key payload t a =
      rw add-one (Ascends-append 0 t.next_id t.rows _ a refl)

  pub mark_published-IsOrdered :
      (now id : ℕ) (t : Table P) → IsOrdered t → IsOrdered (mark_published now id t)
  unfolding mark_published
  mark_published-IsOrdered now id t a = Ascends-marked now id 0 t.next_id t.rows a

  pub pending-mark_published :
      (now : ℕ) (t : Table P) (first : OutboxRow P) (rest : List (OutboxRow P))
      → IsOrdered t
      → pending t ≡ first ∷ rest
      → pending (mark_published now first.id t) ≡ rest
  unfolding mark_published
  pending-mark_published now t first rest a h = select-marked now 0 t.next_id t.rows first rest a h
