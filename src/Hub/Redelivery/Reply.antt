-- ===== src/Hub/Redelivery/Reply.antt =====
-- A reply that is delivered again, or a second, different reply.
use distributed_payment_ledg.Prelude.{
  ℕ, String, ◌≡◌, ◌≢◌, refl, sym, subst, false, some, arith, find, update, find_holds, eq_iff,
  text_Eq, Bool-cases, inl, inr,
}
use distributed_payment_ledg.Exec.{Result, ok}
use distributed_payment_ledg.Hub.Domain.{Error}
use distributed_payment_ledg.Hub.Database.{Database, SettlementRecord, Status, has_id}
use distributed_payment_ledg.Hub.Settlements.{
  SettlementReplyEvent, handle_reply, is_pending, is_open, confirm_row, reverse_row,
  reason_or_default,
}
use distributed_payment_ledg.Hub.Settlements
use distributed_payment_ledg.Hub.Settlements.Resolution.{
  Replying, Resolution, handle_reply-Resolution,
}
use distributed_payment_ledg.Hub.Invariant.History.{settlement-Develops, find-update_open}
use distributed_payment_ledg.Hub.Step.{Reach}

-- The settlement is there and no longer PENDING.
abbrev pub IsResolved : String → Database → Type 0
IsResolved id db =
    (row : SettlementRecord) × (find (has_id id) db.settlements ≡ some row)
    × (is_pending row ≡ false)

-- An update of the PENDING row of a settlement leaves it in a final state.
updated-IsResolved :
    (f : SettlementRecord → SettlementRecord) (id : String) (row : SettlementRecord) (db : Database)
    → ((r : SettlementRecord) → (f r).id ≡ r.id)
    → ((r : SettlementRecord) → is_pending (f r) ≡ false)
    → find (has_id id) db.settlements ≡ some row
    → IsResolved id (record db { settlements = update (is_open id) f db.settlements })
updated-IsResolved f id row db same final h = elim (Bool-cases (is_pending row)) [
  | inl pending ↦ (
    f row,
    ground (
      arith,
      find-update_open f id id db.settlements same,
      find_holds (has_id id) db.settlements h,
    ),
    final row,
  )
  | inr done ↦ (row, ground (arith, find-update_open f id id db.settlements same), done)
]

module _ (event : SettlementReplyEvent) (now : ℕ) (meanwhile : Database → Database)
    (db after : Database) (steps : Reach db (meanwhile db)) where
  replied :
      (row : SettlementRecord) {out : Result Error (Unit {0}) × Database}
      → find (has_id row.id) db.settlements ≡ some row
      → Replying row event now (meanwhile db) out
      → out ≡ (ok tt, after)
      → IsResolved row.id after
  replied row e (Replying.failed x h) g = ground arith
  replied row e (Replying.confirms o h) g =
      let (row', found, develops) = settlement-Develops row.id row steps e in
      let (row'', found', done) =
        updated-IsResolved (confirm_row now) row.id row' (meanwhile db) (λ r. refl) (λ r. refl)
          found in
      (row'', ground arith, done)
  replied row e (Replying.reverses o safe h) g =
      let (row', found, develops) = settlement-Develops row.id row steps e in
      let (row'', found', done) =
        updated-IsResolved (reverse_row now (reason_or_default event.reason)) row.id row'
          (meanwhile db) (λ r. refl) (λ r. refl) found in
      (row'', ground arith, done)

  pub resolved :
      {out : Result Error (Unit {0}) × Database}
      → Resolution event now meanwhile db out
      → out ≡ (ok tt, after)
      → IsResolved event.settlement_id after
  resolved (Resolution.unknown e h) g = ground arith
  resolved (Resolution.ignored row e s h) g = (row, ground arith, s)
  resolved (Resolution.applied row e s r) g =
      let same : row.id ≡ event.settlement_id =
        (eq_iff row.id event.settlement_id).0
          (find_holds (has_id event.settlement_id) db.settlements e) in
      subst (λ id. IsResolved id after) same
        (replied row (subst (λ id. find (has_id id) db.settlements ≡ some row) (sym same) e) r g)

not_pending : (row : SettlementRecord) → is_pending row ≡ false → row.status ≢ Status.pending
not_pending row h e = ground arith

-- If what other requests commit is made of steps, the first reply that is handled without an
-- error decides the settlement: after it, any reply to the same settlement succeeds and changes
-- nothing.
pub reply_redelivered :
    (event event' : SettlementReplyEvent) (now now' : ℕ)
    (meanwhile meanwhile' : Database → Database) (db after later : Database)
    → Reach db (meanwhile db)
    → handle_reply event now meanwhile db ≡ (ok tt, after)
    → Reach after later
    → event'.settlement_id ≡ event.settlement_id
    → handle_reply event' now' meanwhile' later ≡ (ok tt, later)
unfolding handle_reply Settlements.find_by_id
reply_redelivered event event' now now' meanwhile meanwhile' db after later steps h r same =
    let (row, found, done) =
      resolved event now meanwhile db after steps (handle_reply-Resolution event now meanwhile db)
        h in
    let (row', found', develops) = settlement-Develops event.settlement_id row r found in
    let final : row' ≡ row = develops.final (not_pending row done) in ground arith
