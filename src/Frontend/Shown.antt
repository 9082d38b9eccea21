-- ===== src/Frontend/Shown.antt =====
-- What the page shows of a transfer, beside the database of the bank.
use distributed_payment_ledg.Prelude.{
  String, ◌≡◌, ◌≢◌, sym, ap, subst, ◌∙◌, inl, inr, Bool, Option, none, some, List, [], ◌∷◌, arith,
  ◌==◌, text_Eq, eq_iff, Bool-cases, ◌||◌, ltb, count, nat_Eq, All, All-map_lem,
}
use distributed_payment_ledg.Exec.{Result, ok, err, Result-cases}
use distributed_payment_ledg.Money.{from_cents}
use distributed_payment_ledg.Money.Laws.{from_cents-ok}
use distributed_payment_ledg.Bank.Database.{Database, Status}
use distributed_payment_ledg.Bank.Transfers.{Draw, Others}
use distributed_payment_ledg.Bank.Interbank.{Config, InterbankTransferResult}
use distributed_payment_ledg.Bank.Interbank
use distributed_payment_ledg.Bank.Interbank.Reporting.{
  IsAt, Reports, execute-Reports, get_transfer-IsAt,
}
use distributed_payment_ledg.Bank.Invariant.Saga.{Reach-Develops}
use distributed_payment_ledg.Bank.Http.{
  CreateInterbankTransferDto, interbank_params_of, create_interbank_transfer,
  get_interbank_transfer, respond, to_interbank_response,
}
use distributed_payment_ledg.Bank.Step.{Reach}
use distributed_payment_ledg.Frontend.{
  App, TrackedTransfer, InterbankTransfer, FetchError, json_fetch, parsed, tracked, transfer_sent,
  api_get_transfer,
}
use distributed_payment_ledg.Frontend.Polling.{with_status, polled, same_status}

-- The page and the bank.
pub record World : Type 0 where
  pub bank : Database
  pub app : App

-- What the page shows as settled is settled at the bank, and so.
abbrev pub Shows : Database → TrackedTransfer → Type 0
Shows db t = t.status ≢ Status.debited → IsAt db t.transfer_id t.status

abbrev pub IsShown : World → Type 0
IsShown w = All (Shows w.bank) w.app.transfers

-- `bankA.createInterbankTransfer`, where the network works and the body passes the bank's validation.
unfoldable pub api_send_transfer :
    Option String
    → CreateInterbankTransferDto
    → Draw
    → Others
    → Config
    → Database
    → Result FetchError InterbankTransfer × Database
api_send_transfer header body draw others config db =
    let (answer, after) = respond (create_interbank_transfer header body draw others config) db in
    (json_fetch parsed answer, after)

-- A settled status stays.
IsAt-Reach :
    {a b : Database} (id : String) (status : Status)
    → Reach a b
    → status ≢ Status.debited
    → IsAt a id status
    → IsAt b id status
IsAt-Reach id status steps final (row, found, e) =
    let (row', found', develops) = Reach-Develops id row steps found in
    (row', found', ap (λ r. r.status) (develops.final (λ d. final (sym e ∙ d))) ∙ e)

get_lem :
    (is_uuid : String → Bool) (db : Database) (id : String) (fresh : InterbankTransfer)
    → api_get_transfer is_uuid db id ≡ ok fresh
    → (fresh.transfer_id ≡ id) × IsAt db id fresh.status
unfolding api_get_transfer get_interbank_transfer
get_lem is_uuid db id fresh h = elim (Bool-cases (is_uuid id)) [
  | inr bad ↦ absurd (ground arith)
  | inl good ↦ elim (Result-cases (Interbank.get_transfer id db).0) [
    | inr (e, failed) ↦ absurd (ground arith)
    | inl (result, done) ↦
        let whole : fresh ≡ parsed (to_interbank_response result) = ground arith in
        let (same, at) =
          get_transfer-IsAt id db (Interbank.get_transfer id db).1 result (ground arith) in
        (
          ap (λ (x : InterbankTransfer). x.transfer_id) whole ∙ same,
          subst (IsAt db id) (ap (λ (x : InterbankTransfer). x.status) (sym whole)) at,
        )
  ]
]

send_lem :
    (header : Option String) (body : CreateInterbankTransferDto) (draw : Draw) (others : Others)
    (config : Config) (db after : Database) (fresh : InterbankTransfer)
    → api_send_transfer header body draw others config db ≡ (ok fresh, after)
    → Shows after (tracked fresh)
unfolding api_send_transfer create_interbank_transfer
send_lem none body draw others config db after fresh h = absurd (ground arith)
send_lem (some key) body draw others config db after fresh h =
    elim (Bool-cases (count key == 0 || ltb 255 (count key))) [
      | inl bad ↦ absurd (ground arith)
      | inr good ↦ elim (Result-cases (from_cents body.amount_cents)) [
        | inr (e, refused) ↦ absurd (ground arith)
        | inl (amount, safe) ↦
            elim (Result-cases
              (Interbank.execute key (interbank_params_of body amount) draw others config db).0) [
                | inr (e, failed) ↦ absurd (ground arith)
                | inl (result, done) ↦
                    let whole : fresh ≡ parsed (to_interbank_response result) = ground arith in
                    let reports : Reports after result =
                      execute-Reports key (interbank_params_of body amount) draw others config db
                        after result (from_cents-ok body.amount_cents amount safe).1
                        (ground arith) in
                    subst (λ t. Shows after (tracked t)) (sym whole) reports
              ]
      ]
    ]

-- What may happen at the page and at the bank, in any order. A poll is answered from the state that
-- the bank had at some time before the answer arrives.
pub data Step : World → World → Type 0 where
  bank_moves : {b : Database} (w : World) → Reach w.bank b → Step w (record w { bank = b })
  polls :
      (is_uuid : String → Bool) (t : TrackedTransfer) (before : Database) (w : World)
      → Reach before w.bank
      → Step w (record w { app = polled t (api_get_transfer is_uuid before t.transfer_id) w.app })
  sends :
      (header : Option String) (body : CreateInterbankTransferDto) (draw : Draw) (others : Others)
      (config : Config) (before after : Database) (r : Result FetchError InterbankTransfer)
      (w : World)
      → api_send_transfer header body draw others config before ≡ (r, after)
      → Reach after w.bank
      → Step w (record w { app = transfer_sent r w.app })
  else_happens :
      (app : App) (w : World) → app.transfers ≡ w.app.transfers → Step w (record w { app = app })

pub data Runs (a : World) : World → Type 0 where
  here : Runs a a
  next : {b c : World} → Runs a b → Step b c → Runs a c

shown_later :
    {a b : Database} (ts : List TrackedTransfer) → Reach a b → All (Shows a) ts → All (Shows b) ts
shown_later ts steps h =
    All-map_lem (λ t shows final. IsAt-Reach t.transfer_id t.status steps final (shows final)) ts h

module _ (db : Database) (fresh : InterbankTransfer) where
  updated-IsShown :
      (ts : List TrackedTransfer)
      → (fresh.status ≢ Status.debited → IsAt db fresh.transfer_id fresh.status)
      → All (Shows db) ts
      → All (Shows db) (with_status fresh ts)
  updated-IsShown [] at h = tt
  updated-IsShown (t ∷ ts) at h = (
    elim (Bool-cases (t.transfer_id == fresh.transfer_id)) [
      | inr other ↦ rw other h.0
      | inl hit ↦
          let same : fresh.transfer_id ≡ t.transfer_id =
            sym ((eq_iff t.transfer_id fresh.transfer_id).0 hit) in
          rw hit (λ final. subst (λ id. IsAt db id fresh.status) same (at final))
    ],
    updated-IsShown ts at h.1,
  )

  polled-IsShown :
      (t : TrackedTransfer) (app : App)
      → (fresh.status ≢ Status.debited → IsAt db fresh.transfer_id fresh.status)
      → All (Shows db) app.transfers
      → All (Shows db) (polled t (ok fresh) app).transfers
  unfolding polled
  polled-IsShown t app at h = elim (Bool-cases (same_status fresh.status t.status)) [
    | inl same ↦ rw same h
    | inr differs ↦ rw differs (updated-IsShown app.transfers at h)
  ]

Step-IsShown : {a b : World} → Step a b → IsShown a → IsShown b
unfolding polled transfer_sent
Step-IsShown (bank_moves w steps) h = shown_later w.app.transfers steps h
Step-IsShown (polls is_uuid t before w steps) h =
    elim (Result-cases (api_get_transfer is_uuid before t.transfer_id)) [
      | inr (e, failed) ↦ rw failed h
      | inl (fresh, answer) ↦
          let (same, at) = get_lem is_uuid before t.transfer_id fresh answer in
          rw answer (
            polled-IsShown w.bank fresh t w.app
              (λ final.
                IsAt-Reach fresh.transfer_id fresh.status steps final
                  (subst (λ id. IsAt before id fresh.status) (sym same) at))
              h)
    ]
Step-IsShown (sends header body draw others config before after (err e) w answer steps) h = h
Step-IsShown (sends header body draw others config before after (ok fresh) w answer steps) h = (
  λ final.
      IsAt-Reach fresh.transfer_id fresh.status steps final
        (send_lem header body draw others config before after fresh answer final),
  h,
)
Step-IsShown (else_happens app w same) h = subst (All (Shows w.bank)) (sym same) h

-- If the page shows a transfer as confirmed or compensated only where the bank holds it so, that is
-- kept by every handler, whatever order the answers arrive in and whatever steps the bank takes.
pub Runs-IsShown : {a b : World} → Runs a b → IsShown a → IsShown b
Runs-IsShown here h = h
Runs-IsShown (next r step) h = Step-IsShown step (Runs-IsShown r h)
