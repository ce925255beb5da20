-- ===== src/Orbio/Reconciliation.antt =====
-- `OrbioPurchaseReconciliation` (src/settlement/orbio_purchase_reconciliation.py). The operation that is
-- passed is the one in hand. Parameters: the provider's `status`, the evidence that the extraction finds
-- in a status or the exception that leaves it, the hash that stands in the JSON of the operation's parameters, and the texts of the
-- reasons. What an event's payload holds of a report, its codes, reasons and audit dict, is left out.
-- The lock makes a call one step.
use kalyx_mao_engine.Base.{
  ℕ, String, Bool, true, Option, none, some, List, [], ◌∷◌, ◌&&◌, ◌||◌, not, any, str_eq,
  str_append, is_empty, is_inside, if◌then◌else◌,
}
use kalyx_mao_engine.Base.Dict.{Dict}
use kalyx_mao_engine.Base.Outcome.{Result, ok, err, unauthorized, reconciliation_error}
use kalyx_mao_engine.Ledger.{Stamp, LedgerEntry, treasury, escrow, external_sink}
use kalyx_mao_engine.Entities.{Organisation}
use kalyx_mao_engine.Operation.{
  ConsequentialOperation, Transition, is_state, unknown, reconciling, reconciled,
}
use kalyx_mao_engine.Execution.State.{
  Field, text, flag, World, Exec, ◌>>=◌, ◌>>◌, returns, in_hand, if_positive, move_to, save,
  append_event,
}
use kalyx_mao_engine.Execution.Manager.{advance, to, short_hash}
use kalyx_mao_engine.Execution.Reconciliation.{
  ProviderStatusResult, StatusReply, query_status, pay_once, is_terminal, is_unresolved, found,
}
use kalyx_mao_engine.Orbio.Intents.{
  optional_text, OrbioPurchaseIntent, Digests, compute_purchase_intent_hash,
}
use kalyx_mao_engine.Orbio.Verifier.{
  OrbioPurchaseEvidence, PurchaseVerificationReport, PurchaseVerificationResult, verified, rejected,
  pending_evidence, verify, is_unexpected,
}

pub data EconomicAction : Type 0 where
  settled refunded untouched : EconomicAction

pub record PurchaseReconciliationOutcome : Type 0 where
  pub operation : ConsequentialOperation
  pub verification : Option PurchaseVerificationReport
  pub economic_action : EconomicAction

abbrev pub actor : String
actor = "ORBIO_PURCHASE_RECONCILIATION"

abbrev pub is_purchase : ConsequentialOperation → Bool
is_purchase op =
    str_eq op.action_type "ORBIO_CREDIT_PURCHASE" || str_eq op.action_type "BLOCKCHAIN_TRANSACTION"

-- An entry that pays out for the operation, and one that refunds it.
abbrev pub pays_out : ConsequentialOperation → LedgerEntry → Bool
pays_out op e = is_inside op.id e.memo && str_eq e.to_account external_sink

abbrev pub pays_back : ConsequentialOperation → LedgerEntry → Bool
pays_back op e =
    is_inside op.id e.memo && str_eq e.to_account treasury && str_eq e.from_account escrow

-- `if op.state != RECONCILED:` transition and save.
abbrev pub mark_reconciled : Transition → Exec (Unit {0})
mark_reconciled t w =
    if is_state w.operation.state reconciled then (ok tt, w) else (do move_to t; save) w

abbrev pub or_text : Option String → Option String → Option String
or_text none other = other
or_text (some s) other = if is_empty s then other else some s

abbrev pub outcome_of :
    Option PurchaseVerificationReport → EconomicAction → Exec PurchaseReconciliationOutcome
outcome_of report action = do
  op ← in_hand
  returns (record { operation = op; verification = report; economic_action = action })

module _ (lib : Digests) (reason_of : PurchaseVerificationReport → String) where
  abbrev pub payout_tx : ConsequentialOperation → String
  payout_tx op = str_append "tx-orbio-rec-" (short_hash lib.sha256 op.id)

  abbrev pub refund_tx : ConsequentialOperation → String
  refund_tx op = str_append "rollback-orbio-rec-" (short_hash lib.sha256 op.id)

  unfoldable pub settle_success : Stamp → ℕ → ProviderStatusResult → Exec (Unit {0})
  settle_success s now status = do
    if_positive (λ w.
        pay_once (any (pays_out w.operation) w.ledger.entries) s external_sink
          (str_append "Orbio purchase reconciliation settlement for " w.operation.id)
          (payout_tx w.operation) w)
    mark_reconciled (record {
      new_state = reconciled;
      error_message = none;
      provider_reference = status.provider_reference;
      now = now;
    })

  unfoldable pub settle_failure :
      Stamp → ℕ → ProviderStatusResult → PurchaseVerificationReport → Exec (Unit {0})
  settle_failure s now status report = do
    if_positive (λ w.
        pay_once (any (pays_back w.operation) w.ledger.entries) s treasury
          (str_append "Orbio purchase reconciliation refund for " w.operation.id)
          (refund_tx w.operation) w)
    mark_reconciled (record {
      new_state = reconciled;
      error_message = some (reason_of report);
      provider_reference = status.provider_reference;
      now = now;
    })

  abbrev pub purchase_event :
      String → PurchaseVerificationReport → List (String × Field) → Exec (Unit {0})
  purchase_event type report more =
      append_event actor type
        (λ op. ("operation_id", text op.id) ∷ ("intent_hash", text report.intent_hash) ∷ more)

  unfoldable pub stay_pending :
      ℕ → ProviderStatusResult → PurchaseVerificationReport → Exec (Unit {0})
  stay_pending now status report = do
    op ← in_hand
    move_to (record {
      new_state = unknown;
      error_message = some "Purchase evidence pending; escrow preserved";
      provider_reference = or_text status.provider_reference op.provider_reference;
      now = now;
    })
    save
    purchase_event "ORBIO_PURCHASE_RECONCILIATION_PENDING" report
        (("provider_outcome", text status.outcome) ∷ ("escrow_locked", flag true) ∷ [])

  -- The end of `_reconcile_locked`, by the verdict.
  unfoldable pub conclude :
      Stamp
      → ℕ
      → ProviderStatusResult
      → PurchaseVerificationReport
      → PurchaseVerificationResult
      → Exec PurchaseReconciliationOutcome
  conclude s now status report verified = do
    settle_success s now status
    purchase_event "ORBIO_PURCHASE_RECONCILED_VERIFIED" report
        (("provider_reference", optional_text status.provider_reference) ∷ [])
    outcome_of (some report) settled
  conclude s now status report rejected = do
    settle_failure s now status report
    purchase_event "ORBIO_PURCHASE_RECONCILED_REJECTED" report []
    outcome_of (some report) refunded
  conclude s now status report pending_evidence = do
    stay_pending now status report
    outcome_of (some report) untouched

  -- `verify_status` and what follows it; the extraction of the evidence may raise.
  abbrev pub conclude_on :
      OrbioPurchaseIntent
      → Stamp
      → ℕ
      → ProviderStatusResult
      → World
      → Dict String
      → Result (Option OrbioPurchaseEvidence)
      → (Result PurchaseReconciliationOutcome × World) × Dict String
  conclude_on i s now status w known (err e) = ((err e, w), known)
  conclude_on i s now status w known (ok evidence) =
      let (report, known') =
        verify lib i evidence (some status.outcome) status.provider_reference known in
      (conclude s now status report report.result w, known')

  -- `if op.state != RECONCILING:` make it so.
  abbrev pub start : ℕ → OrbioPurchaseIntent → Exec (Unit {0})
  start now i w =
      if is_state w.operation.state reconciling
      then (ok tt, w)
      else advance (to reconciling now) actor "ORBIO_PURCHASE_RECONCILING"
          (λ op.
            ("operation_id", text op.id)
            ∷ ("intent_hash", text (compute_purchase_intent_hash lib i))
            ∷ [])
          w

  module _ (with_reference : String → String → Option String → StatusReply)
      (without : String → String → StatusReply)
      (evidence_of : ProviderStatusResult
        → ConsequentialOperation
        → Result (Option OrbioPurchaseEvidence))
      (stored_hash : String → Option String) (i : OrbioPurchaseIntent) (org : Organisation) where
    abbrev pub is_foreign : ConsequentialOperation → Bool
    is_foreign op =
        not (str_eq op.tenant_id org.tenant_id)
        || not (str_eq op.organisation_id org.id)
        || not (str_eq i.organisation_id org.id)
        || not (str_eq i.tenant_id org.tenant_id)

    abbrev pub ask : ℕ → Exec ProviderStatusResult
    ask now = do start now i; op ← in_hand; (λ w. (query_status with_reference without op, w))

    abbrev pub verify_and_conclude :
        Stamp
        → ℕ
        → Result ProviderStatusResult × World
        → Dict String
        → (Result PurchaseReconciliationOutcome × World) × Dict String
    verify_and_conclude s now (err e, w) known = ((err e, w), known)
    verify_and_conclude s now (ok status, w) known =
        conclude_on i s now status w known (evidence_of status w.operation)

    -- `_reconcile_locked`
    unfoldable pub reconcile :
        Stamp
        → ℕ
        → World
        → Dict String
        → (Result PurchaseReconciliationOutcome × World) × Dict String
    reconcile s now w known =
        if is_foreign w.operation
        then ((err unauthorized, w), known)
        else if not (is_purchase w.operation)
        then ((err reconciliation_error, w), known)
        else if is_terminal w.operation.state
        then (outcome_of none untouched w, known)
        else if not (is_unresolved w.operation.state)
        then ((err reconciliation_error, w), known)
        else if is_unexpected (stored_hash w.operation.parameters)
            (compute_purchase_intent_hash lib i)
        then ((err reconciliation_error, w), known)
        else verify_and_conclude s now (ask now w) known

    abbrev pub reconcile_row :
        Stamp
        → ℕ
        → Option ConsequentialOperation
        → World
        → Dict String
        → (Result PurchaseReconciliationOutcome × World) × Dict String
    reconcile_row s now none w known = ((err reconciliation_error, w), known)
    reconcile_row s now (some op) w known = reconcile s now (record w { operation = op }) known

    unfoldable pub reconcile_by_id :
        Stamp
        → ℕ
        → String
        → World
        → Dict String
        → (Result PurchaseReconciliationOutcome × World) × Dict String
    reconcile_by_id s now id w known = reconcile_row s now (found w.operations id) w known
