-- ===== src/Frontend/Polling.antt =====
-- `useTransferPolling`: every tick asks the bank for each transfer that is in flight.
use distributed_payment_ledg.Prelude.{
  String, ◌≡◌, ◌≢◌, refl, sym, subst, ap, ◌∙◌, inl, inr, Bool, true, false, List, [], ◌∷◌, arith,
  ◌==◌, text_Eq, eq_iff, eq_refl, Bool-cases, exists, select, update, All, All-map_lem,
  if◌then◌else◌,
}
use distributed_payment_ledg.Exec.{Result, ok, err}
use distributed_payment_ledg.Bank.Database.{Status}
use distributed_payment_ledg.Frontend.{App, TrackedTransfer, InterbankTransfer, FetchError}

abbrev pub in_flight : TrackedTransfer → Bool
in_flight t = elim t.status [
  | Status.debited ↦ true
  | Status.confirmed ↦ false
  | Status.compensated ↦ false
]

abbrev pub same_status : Status → Status → Bool
same_status Status.debited Status.debited = true
same_status Status.confirmed Status.confirmed = true
same_status Status.compensated Status.compensated = true
same_status _ _ = false

-- `prev.map((p) => (p.transferId === fresh.transferId ? { ...p, status: fresh.status } : p))`
abbrev pub with_status : InterbankTransfer → List TrackedTransfer → List TrackedTransfer
with_status fresh transfers =
    update (λ p. p.transfer_id == fresh.transfer_id) (λ p. record p { status = fresh.status })
      transfers

-- The answer to one poll, for a transfer as it was when the tick began. A failure is ignored. The
-- balances that a settled transfer asks for arrive later (`balances_refreshed`).
unfoldable pub polled : TrackedTransfer → Result FetchError InterbankTransfer → App → App
polled t (err e) app = app
polled t (ok fresh) app =
    if same_status fresh.status t.status
    then app
    else record app { transfers = with_status fresh app.transfers }

-- The answers to all polls of a tick, in the order of the list.
unfoldable pub poll_all :
    (String → Result FetchError InterbankTransfer) → List TrackedTransfer → App → App
poll_all answers [] app = app
poll_all answers (t ∷ ts) app = poll_all answers ts (polled t (answers t.transfer_id) app)

unfoldable pub tick : (String → Result FetchError InterbankTransfer) → App → App
tick answers app = poll_all answers (select in_flight app.transfers) app

-- The bank answers the poll, and the transfer is settled there.
abbrev pub SettledAnswer : (String → Result FetchError InterbankTransfer) → TrackedTransfer → Type 0
SettledAnswer answers t =
    (fresh : InterbankTransfer) × (answers t.transfer_id ≡ ok fresh)
    × (fresh.transfer_id ≡ t.transfer_id)
    × (fresh.status ≢ Status.debited)

-- What is in flight is still to be polled.
abbrev IsListed : List TrackedTransfer → TrackedTransfer → Type 0
IsListed ts p = in_flight p ≡ true → exists (λ t. t.transfer_id == p.transfer_id) ts ≡ true

settled_row :
    (p : TrackedTransfer) (s : Status) → p.status ≡ s → s ≢ Status.debited → in_flight p ≡ false
settled_row p Status.debited e h = absurd (h refl)
settled_row p Status.confirmed e h = rw e refl
settled_row p Status.compensated e h = rw e refl

differs :
    (t : TrackedTransfer) (s : Status)
    → in_flight t ≡ true
    → s ≢ Status.debited
    → same_status s t.status ≡ false
differs t s flying h = go t.status refl s h
  where
    go :
        (u : Status)
        → t.status ≡ u
        → (s : Status) → s ≢ Status.debited
        → same_status s t.status ≡ false
    go Status.debited e Status.debited h = absurd (h refl)
    go Status.debited e Status.confirmed h = rw e refl
    go Status.debited e Status.compensated h = rw e refl
    go Status.confirmed e s h = absurd (ground arith)
    go Status.compensated e s h = absurd (ground arith)

module _ (answers : String → Result FetchError InterbankTransfer) where
  struck :
      (t : TrackedTransfer) (ts ps : List TrackedTransfer) (fresh : InterbankTransfer)
      → fresh.transfer_id ≡ t.transfer_id
      → fresh.status ≢ Status.debited
      → All (IsListed (t ∷ ts)) ps
      → All (IsListed ts) (with_status fresh ps)
  struck t ts [] fresh same final h = tt
  struck t ts (p ∷ ps) fresh same final h = (
    elim (Bool-cases (p.transfer_id == fresh.transfer_id)) [
      | inl hit ↦ rw hit (λ flying. absurd (
          cc
            (sym flying, settled_row (record p { status = fresh.status }) fresh.status refl final)))
      | inr miss ↦ rw miss (λ flying.
          ground (arith, h.0 flying, eq_iff t.transfer_id p.transfer_id, eq_refl p.transfer_id))
    ],
    struck t ts ps fresh same final h.1,
  )

  nothing_left :
      (ps : List TrackedTransfer) → All (IsListed []) ps → All (λ p. in_flight p ≡ false) ps
  nothing_left [] h = tt
  nothing_left (p ∷ ps) h = (
    elim (Bool-cases (in_flight p)) [ inl flying ↦ absurd (cc (h.0 flying)) | inr done ↦ done ],
    nothing_left ps h.1,
  )

  polled-settled :
      (t : TrackedTransfer) (fresh : InterbankTransfer) (app : App)
      → in_flight t ≡ true
      → fresh.status ≢ Status.debited
      → polled t (ok fresh) app ≡ record app { transfers = with_status fresh app.transfers }
  unfolding polled
  polled-settled t fresh app flying final = rw (differs t fresh.status flying final) refl

  poll_all_settles :
      (ts : List TrackedTransfer) (app : App)
      → All (λ t. (in_flight t ≡ true) × SettledAnswer answers t) ts
      → All (IsListed ts) app.transfers
      → All (λ p. in_flight p ≡ false) (poll_all answers ts app).transfers
  unfolding poll_all
  poll_all_settles [] app h l = nothing_left app.transfers l
  poll_all_settles (t ∷ ts) app ((flying, (fresh, answer, same, final)), h) l =
      let after : polled t (answers t.transfer_id) app
          ≡ record app { transfers = with_status fresh app.transfers } =
        ap (λ a. polled t a app) answer ∙ polled-settled t fresh app flying final in
      subst (λ a. All (λ p. in_flight p ≡ false) (poll_all answers ts a).transfers) (sym after)
        (poll_all_settles ts (record app { transfers = with_status fresh app.transfers }) h
          (struck t ts app.transfers fresh same final l))

  asked :
      (ps : List TrackedTransfer)
      → All (λ t. in_flight t ≡ true → SettledAnswer answers t) ps
      → All (λ t. (in_flight t ≡ true) × SettledAnswer answers t) (select in_flight ps)
  asked [] h = tt
  asked (p ∷ ps) h = elim (Bool-cases (in_flight p)) [
    | inl flying ↦ rw flying ((flying, h.0 flying), asked ps h.1)
    | inr done ↦ rw done (asked ps h.1)
  ]

  also :
      (p : TrackedTransfer) (ts : List TrackedTransfer) (q : TrackedTransfer)
      → IsListed ts q
      → IsListed (if in_flight p then p ∷ ts else ts) q
  also p ts q h flying = elim (Bool-cases (in_flight p)) [
    | inl more ↦ rw more (ground (arith, h flying))
    | inr done ↦ rw done (h flying)
  ]

  own_list : (ps : List TrackedTransfer) → All (IsListed (select in_flight ps)) ps
  own_list [] = tt
  own_list (p ∷ ps) = (
    λ flying. rw (flying, eq_refl p.transfer_id) refl,
    All-map_lem (also p (select in_flight ps)) ps (own_list ps),
  )

  -- If the bank answers every poll of a tick, and each transfer in flight is settled there, then no
  -- transfer is shown as in flight after the tick.
  pub tick_settles :
      (app : App)
      → All (λ t. in_flight t ≡ true → SettledAnswer answers t) app.transfers
      → All (λ p. in_flight p ≡ false) (tick answers app).transfers
  unfolding tick
  tick_settles app h =
      poll_all_settles (select in_flight app.transfers) app (asked app.transfers h)
        (own_list app.transfers)
