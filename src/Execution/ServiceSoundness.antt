-- ===== src/Execution/ServiceSoundness.antt =====
-- Which operations `reconcile_operation` touches at all, and that it keeps every ledger sound.
use kalyx_mao_engine.Base.{
  ℕ, String, Bool, false, ◌≡◌, refl, Option, none, some, List, arith, str_eq, ◌&&◌, not, Bool-cases,
  inl, inr,
}
use kalyx_mao_engine.Base.Int.{ℤ, leb_ℤ}
use kalyx_mao_engine.Base.Outcome.{Result, ok, err}
use kalyx_mao_engine.Ledger.{Stamp, escrow, treasury, external_sink, system_mint, get_balance}
use kalyx_mao_engine.Entities.{Organisation}
use kalyx_mao_engine.Operation.{
  reconciled, reconciling, ConsequentialOperation, Transition, is_state,
}
use kalyx_mao_engine.Execution.State.{
  Field, World, ◌>>◌, in_hand, transfer_amount, refresh_treasury,
}
use kalyx_mao_engine.Execution.Reconciliation.{
  ProviderStatusResult, StatusReply, query_status, already_settled, already_refunded, pay_once,
  is_duplicate, pass_duplicate, found, settlement_tx, refund_tx, settle_once, refund_once,
  if_reconciled, unless_reconciled, advance_unless_reconciled, confirm_success, confirm_failure,
  stay_unknown, resolve, start_reconciling, is_terminal, is_unresolved, reconcile_found,
  reconcile_operation, reconcile_row,
}
use kalyx_mao_engine.Execution.Soundness.{
  IsSound, KeepsSound, >>=-KeepsSound, if-IsSound, if-KeepsSound, if_positive-KeepsSound,
  advance-KeepsSound, transfer_amount-KeepsSound, in_hand-KeepsSound, refresh_treasury-KeepsSound,
}

-- The row is this organisation's, and it waits for reconciliation.
abbrev pub may_reconcile : Organisation → Option ConsequentialOperation → Bool
may_reconcile org none = false
may_reconcile org (some op) =
    str_eq op.tenant_id org.tenant_id && str_eq op.organisation_id org.id && is_unresolved op.state

pass_duplicate-IsSound :
    (n : ℤ) (r : Result (Unit {0}) × World)
    → IsSound n r.1.ledger
    → IsSound n (pass_duplicate r).1.ledger
pass_duplicate-IsSound n (ok a, w) h = h
pass_duplicate-IsSound n (err e, w) h = if-IsSound n (is_duplicate e) _ _ h h

pub pay_once-KeepsSound :
    (is_done : Bool) (s : Stamp) (destination memo tx : String)
    → str_eq destination system_mint ≡ false
    → KeepsSound (pay_once is_done s destination memo tx)
pay_once-KeepsSound is_done s destination memo tx elsewhere =
    let payment =
      >>=-KeepsSound (transfer_amount s escrow destination memo tx) (λ _. refresh_treasury)
        (transfer_amount-KeepsSound s escrow destination memo tx elsewhere)
        (λ _. refresh_treasury-KeepsSound) in
    record {
      keeps = λ n w h.
          if-IsSound n (not is_done && leb_ℤ w.operation.amount (get_balance w.ledger escrow)) _ _
            (pass_duplicate-IsSound n _ (payment.keeps n w h)) h;
    }

finish-KeepsSound :
    (t : Transition) (event : String) (payload : ConsequentialOperation → List (String × Field))
    → KeepsSound (unless_reconciled (advance_unless_reconciled t event payload >> in_hand))
finish-KeepsSound t event payload = record {
  keeps = λ n w h. (go (found w.operations w.operation.id)).keeps n w h;
}
  where
    advances : KeepsSound (advance_unless_reconciled t event payload)
    advances = record {
      keeps = λ n w h.
          if-IsSound n (is_state w.operation.state reconciled) _ _ h
            ((advance-KeepsSound t _ event payload).keeps n w h);
    }

    plain : KeepsSound (advance_unless_reconciled t event payload >> in_hand)
    plain = >>=-KeepsSound _ _ advances λ _. in_hand-KeepsSound

    go :
        (o : Option ConsequentialOperation)
        → KeepsSound (if_reconciled o (advance_unless_reconciled t event payload >> in_hand))
    go none = plain
    go (some op) =
        if-KeepsSound (is_state op.state reconciled) _ _ (record { keeps = λ n w h. h }) plain

start_reconciling-KeepsSound : (now : ℕ) → KeepsSound (start_reconciling now)
start_reconciling-KeepsSound now = record {
  keeps = λ n w h.
      if-IsSound n (is_state w.operation.state reconciling) _ _ h
        ((advance-KeepsSound _ _ _ _).keeps n w h);
}

module _ (sha256 : String → String) (s : Stamp) (now : ℕ) where
  settle_once-KeepsSound : KeepsSound (settle_once sha256 s)
  unfolding settle_once
  settle_once-KeepsSound = if_positive-KeepsSound _ (record {
    keeps = λ n w h.
        (pay_once-KeepsSound
            (already_settled w.operation (settlement_tx sha256 w.operation) w.ledger.entries) s
            external_sink _ _ refl).keeps
          n w h;
  })

  refund_once-KeepsSound : KeepsSound (refund_once sha256 s)
  unfolding refund_once
  refund_once-KeepsSound = if_positive-KeepsSound _ (record {
    keeps = λ n w h.
        (pay_once-KeepsSound
            (already_refunded w.operation (refund_tx sha256 w.operation) w.ledger.entries) s
            treasury _ _ refl).keeps
          n w h;
  })

  resolve-KeepsSound : (q : Result ProviderStatusResult) → KeepsSound (resolve sha256 s now q)
  unfolding resolve confirm_success confirm_failure stay_unknown
  resolve-KeepsSound (err x) = record { keeps = λ n w h. h }
  resolve-KeepsSound (ok r) =
      if-KeepsSound (str_eq r.outcome "SUCCESS") _ _
        (>>=-KeepsSound _ _ settle_once-KeepsSound λ _. finish-KeepsSound _ _ _)
        (if-KeepsSound (str_eq r.outcome "FAILURE") _ _
          (>>=-KeepsSound _ _ refund_once-KeepsSound λ _. finish-KeepsSound _ _ _)
          (>>=-KeepsSound _ _ (advance-KeepsSound _ _ _ _) λ _. in_hand-KeepsSound))

  module _ (with_reference : String → String → Option String → StatusReply)
      (without : String → String → StatusReply) (org : Organisation) (id : String) where
    row-inert :
        (o : Option ConsequentialOperation) (w : World)
        → may_reconcile org o ≡ false
        → (reconcile_row sha256 with_reference without s now org o w).1 ≡ w
    unfolding reconcile_found
    row-inert none w h = refl
    row-inert (some op) w h = elim (Bool-cases (str_eq op.tenant_id org.tenant_id)) [
      | inr foreign ↦ simp foreign
      | inl tenant ↦ elim (Bool-cases (str_eq op.organisation_id org.id)) [
        | inr foreign ↦ simp (tenant, foreign)
        | inl own ↦ elim (Bool-cases (is_terminal op.state)) [
          | inl over ↦ simp (tenant, own, over)
          | inr running ↦
              let resting : is_unresolved op.state ≡ false = ground (arith, tenant, own, h) in
              simp (tenant, own, running, resting)
        ]
      ]
    ]

    -- A call changes nothing at all, neither table, ledger nor log, where the id is unknown, the row
    -- belongs to another tenant or organisation, or its operation does not wait for reconciliation.
    pub reconcile-inert :
        (w : World)
        → may_reconcile org (found w.operations id) ≡ false
        → (reconcile_operation sha256 with_reference without s now org id w).1 ≡ w
    unfolding reconcile_operation
    reconcile-inert w h = row-inert (found w.operations id) w h

    row-KeepsSound :
        (o : Option ConsequentialOperation)
        → KeepsSound (reconcile_row sha256 with_reference without s now org o)
    unfolding reconcile_found
    row-KeepsSound none = record { keeps = λ n w h. h }
    row-KeepsSound (some op) =
        let work = >>=-KeepsSound _ _ (start_reconciling-KeepsSound now) λ _.
          >>=-KeepsSound _ _ in_hand-KeepsSound
            λ o. resolve-KeepsSound (query_status with_reference without o) in
        record {
          keeps = λ n w h. if-IsSound n _ _ _ h (
              if-IsSound n (is_terminal op.state) _ _ h (
                if-IsSound n (not (is_unresolved op.state)) _ _ h
                  (work.keeps n (record w { operation = op }) h)));
        }

    -- Whatever status the provider reports, and whether `reconcile_operation` returns or raises: no
    -- account is overdrawn, no credits were created or lost, and `verify_conservation` still holds.
    pub reconcile_operation-KeepsSound :
        KeepsSound (reconcile_operation sha256 with_reference without s now org id)
    unfolding reconcile_operation
    reconcile_operation-KeepsSound = record {
      keeps = λ n w h. (row-KeepsSound (found w.operations id)).keeps n w h;
    }
