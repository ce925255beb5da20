-- ===== src/Execution/Recovery.antt =====
-- What `reconcile_operation` does with the credits in escrow, for each status of the provider.
use kalyx_mao_engine.Base.{
  ℕ, String, true, false, ◌≡◌, ◌⊎◌, refl, ap, ◌∙◌, Option, none, some, List, [], ◌∷◌, arith,
  str_append, eq_refl, or_else, Bool-cases, inl, inr, if◌then◌else◌,
}
use kalyx_mao_engine.Base.Int.{pos, ltb_ℤ, leb_ℤ}
use kalyx_mao_engine.Base.Outcome.{Result, ok}
use kalyx_mao_engine.Ledger.{Stamp, escrow, external_sink, get_balance, entry_of}
use kalyx_mao_engine.Ledger.Methods.{Accepts, transfer-Accepts}
use kalyx_mao_engine.Entities.{Organisation}
use kalyx_mao_engine.Operation.{
  reconciling, reconciled, ConsequentialOperation, Transition, is_state,
}
use kalyx_mao_engine.Operation.Routes.{is_state→eq}
use kalyx_mao_engine.Execution.State.{Field, text, World, ◌>>=◌, ◌>>◌, in_hand}
use kalyx_mao_engine.Execution.Manager.{advance, to, id_and}
use kalyx_mao_engine.Execution.Steps.{
  Unclashed, Advanced, advance-Advanced, advance_then, then_ok, paid,
}
use kalyx_mao_engine.Execution.Reconciliation.{
  ProviderStatusResult, StatusReply, query_status, already_settled, pay_once, found, settlement_tx,
  settle_once, if_reconciled, advance_unless_reconciled, confirm_success, resolve,
  start_reconciling, is_terminal, is_unresolved, reconcile_found, reconcile_operation, service,
}

-- The transition to RECONCILING, which an operation that is RECONCILING already skips.
pub reconciling-Advanced :
    (actor event : String) (payload : ConsequentialOperation → List (String × Field)) (now : ℕ)
    (w : World)
    → is_unresolved w.operation.state ≡ true
    → Unclashed w.operation w.operations
    → (w' : World) × (((if is_state w.operation.state reconciling
            then (ok tt, w)
            else advance (to reconciling now) actor event payload w)
          ≡ (ok tt, w'))
        × Advanced reconciling w w')
reconciling-Advanced actor event payload now w pending free =
    elim (Bool-cases (is_state w.operation.state reconciling)) [
      | inl begun ↦ (
        w,
        (
          simp begun,
          record {
            ledger = refl;
            treasury_balance = refl;
            consumptions = refl;
            state = is_state→eq _ _ begun;
            id = refl;
            amount = refl;
            tenant_id = refl;
            organisation_id = refl;
            unclashed = free;
          },
        ),
      )
      | inr before ↦
          let (w', (e, adv)) =
            advance-Advanced (to reconciling now) actor event payload w
              (ground (arith, pending, before)) free in
          (w', (simp before e, adv))
    ]

-- An operation that is RECONCILED, and credits as they were.
pub record Reconciled (w : World) (r : Result ConsequentialOperation × World) : Type 0 where
  pub operation : ConsequentialOperation
  pub returned : r.0 ≡ ok operation
  pub state : operation.state ≡ reconciled
  pub ledger : r.1.ledger ≡ w.ledger
  pub treasury_balance : r.1.treasury_balance ≡ w.treasury_balance

finish :
    (t : Transition) (event : String) (payload : ConsequentialOperation → List (String × Field))
    (w : World)
    → t.new_state ≡ reconciled
    → w.operation.state ≡ reconciling
    → Unclashed w.operation w.operations
    → Reconciled w ((advance_unless_reconciled t event payload >> in_hand) w)
finish t event payload w target state free =
    let away : is_state w.operation.state reconciled ≡ false = rw state refl in
    let (w', (e, adv)) =
      advance_then t service event payload in_hand w (rw target (rw state refl)) free in
    let same : (advance_unless_reconciled t event payload >> in_hand) w ≡ (ok w'.operation, w') =
      simp away e in
    record {
      operation = w'.operation;
      returned = ap (λ r. r.0) same;
      state = adv.state ∙ target;
      ledger = ap (λ r. r.1.ledger) same ∙ adv.ledger;
      treasury_balance = ap (λ r. r.1.treasury_balance) same ∙ adv.treasury_balance;
    }

pub finish-Reconciled :
    (o : Option ConsequentialOperation) (t : Transition) (event : String)
    (payload : ConsequentialOperation → List (String × Field)) (w : World)
    → t.new_state ≡ reconciled
    → w.operation.state ≡ reconciling
    → Unclashed w.operation w.operations
    → Reconciled w (if_reconciled o (advance_unless_reconciled t event payload >> in_hand) w)
finish-Reconciled none t event payload w target state free =
    finish t event payload w target state free
finish-Reconciled (some op) t event payload w target state free =
    elim (Bool-cases (is_state op.state reconciled)) [
      | inl done ↦ rw done (record {
        operation = op;
        returned = refl;
        state = is_state→eq op.state reconciled done;
        ledger = refl;
        treasury_balance = refl;
      })
      | inr waiting ↦ rw waiting (finish t event payload w target state free)
    ]

-- `pay_once` where it pays, and where it does not.
pub pay_once-paid :
    (s : Stamp) (destination memo tx : String) (w : World)
    → Accepts escrow destination w.operation.amount (or_else (some tx) s.uuid) w.ledger
    → pay_once false s destination memo tx w ≡ (
      ok tt,
      paid (entry_of s (or_else (some tx) s.uuid) escrow destination w.operation.amount memo) w,
    )
pay_once-paid s destination memo tx w h =
    let funded : leb_ℤ w.operation.amount (get_balance w.ledger escrow) ≡ true =
      ground (arith, h.funded) in
    rw funded
      (rw (transfer-Accepts s escrow destination w.operation.amount memo (some tx) w.ledger h) refl)

module _ (sha256 : String → String) (s : Stamp) where
  pub settle_once-paid :
      (w : World)
      → already_settled w.operation (settlement_tx sha256 w.operation) w.ledger.entries ≡ false
      → Accepts escrow external_sink w.operation.amount
          (or_else (some (settlement_tx sha256 w.operation)) s.uuid)
          w.ledger
      → settle_once sha256 s w ≡ (
        ok tt,
        paid
            (entry_of s
              (or_else (some (settlement_tx sha256 w.operation)) s.uuid)
              escrow
              external_sink
              w.operation.amount
              (str_append "Reconciliation settlement for operation " w.operation.id))
            w,
      )
  unfolding settle_once
  settle_once-paid w new h =
      let positive : ltb_ℤ (pos 0) w.operation.amount ≡ true = ground (arith, h.positive) in
      rw positive (rw new (pay_once-paid s external_sink _ (settlement_tx sha256 w.operation) w h))

  -- Nothing is paid for an operation that was settled, and nothing where escrow is short.
  pub settle_once-skips :
      (w : World)
      → (already_settled w.operation (settlement_tx sha256 w.operation) w.ledger.entries ≡ true)
        ⊎ (leb_ℤ w.operation.amount (get_balance w.ledger escrow) ≡ false)
      → settle_once sha256 s w ≡ (ok tt, w)
  unfolding settle_once
  settle_once-skips w h = elim (Bool-cases (ltb_ℤ (pos 0) w.operation.amount)) [
    | inr nothing ↦ simp nothing
    | inl positive ↦ elim h [
      | inl settled ↦ simp (positive, settled)
      | inr short ↦
          elim (Bool-cases
            (already_settled w.operation (settlement_tx sha256 w.operation) w.ledger.entries)) [
              | inl settled ↦ simp (positive, settled)
              | inr new ↦ simp (positive, new, short)
            ]
    ]
  ]

  pub confirm_success-Reconciled :
      (now : ℕ) (r : ProviderStatusResult) (w w1 : World)
      → settle_once sha256 s w ≡ (ok tt, w1)
      → w1.operation.state ≡ reconciling
      → Unclashed w1.operation w1.operations
      → Reconciled w1 (confirm_success sha256 s now r w)
  unfolding confirm_success
  confirm_success-Reconciled now r w w1 e state free =
      rw (then_ok (settle_once sha256 s) _ w e)
        (finish-Reconciled (found w1.operations w1.operation.id) _ _ _ w1 refl state free)

-- An operation of this organisation that is in the table and waits for reconciliation.
pub record IsPending (org : Organisation) (id : String) (op : ConsequentialOperation) (w : World)
    : Type 0 where
  pub stored : found w.operations id ≡ some op
  pub own_tenant : op.tenant_id ≡ org.tenant_id
  pub own_organisation : op.organisation_id ≡ org.id
  pub unresolved : is_unresolved op.state ≡ true
  pub unclashed : Unclashed op w.operations

-- The world in which the service took the operation in hand.
abbrev pub taken : ConsequentialOperation → World → World
taken op w = record w { operation = op }

module _ (sha256 : String → String) (with_reference : String → String → Option String → StatusReply)
    (without : String → String → StatusReply) (s : Stamp) (now : ℕ) (org : Organisation)
    (id : String) (op : ConsequentialOperation) (w : World) where
  abbrev pub reconcile : Result ConsequentialOperation × World
  reconcile = reconcile_operation sha256 with_reference without s now org id w

  pub reconcile_starts :
      IsPending org id op w
      → (w1 : World) × ((reconcile
            ≡ resolve sha256 s now (query_status with_reference without w1.operation) w1)
          × Advanced reconciling (taken op w) w1)
  unfolding reconcile_operation reconcile_found
  reconcile_starts h =
      let (w1, (e, adv)) =
        reconciling-Advanced service "CONSEQUENTIAL_OPERATION_RECONCILING"
          (id_and (("state", text "reconciling") ∷ [])) now (taken op w) h.unresolved h.unclashed in
      let waiting : is_terminal op.state ≡ false = ground (arith, h.unresolved) in
      (
        w1,
        (
          simp (h.stored, h.own_tenant, h.own_organisation, eq_refl, waiting, h.unresolved)
              (then_ok (start_reconciling now)
                (in_hand >>= λ o. resolve sha256 s now (query_status with_reference without o))
                (taken op w) e),
          adv,
        ),
      )
