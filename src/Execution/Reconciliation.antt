-- ===== src/Execution/Reconciliation.antt =====
-- `ReconciliationService` (src/settlement/reconciliation.py). The provider's `status` is a parameter, by
-- what it answers with the keyword argument and without it. The lock makes a call one step.
use kalyx_mao_engine.Base.{
  ℕ, String, Bool, true, false, Option, none, some, List, [], ◌∷◌, ◌&&◌, ◌||◌, not, any, str_eq,
  str_append, or_else, if◌then◌else◌, is_inside,
}
use kalyx_mao_engine.Base.Int.{leb_ℤ, eqb_ℤ}
use kalyx_mao_engine.Base.Outcome.{
  Error, Result, ok, err, unauthorized, reconciliation_error, provider_error, duplicate_transaction,
  integrity_transaction_id, integrity_entry_id,
}
use kalyx_mao_engine.Ledger.{Stamp, LedgerEntry, treasury, escrow, external_sink, get_balance}
use kalyx_mao_engine.Entities.{Organisation}
use kalyx_mao_engine.Operation.{
  OperationState, submitted, succeeded, failed, unknown, reconciling, reconciled,
  ConsequentialOperation, Transition, is_state,
}
use kalyx_mao_engine.Execution.State.{
  Field, text, number, flag, World, Exec, Operations, ◌>>=◌, ◌>>◌, returns, raises, in_hand,
  if_positive, append_event, transfer_amount, refresh_treasury, get,
}
use kalyx_mao_engine.Execution.Manager.{advance, to, id_and, optional, short_hash}

pub record ProviderStatusResult : Type 0 where
  pub outcome : String
  pub provider_reference : Option String
  pub error_message : Option String
  pub evidence_hash : Option String

pub data StatusReply : Type 0 where
  status_is : ProviderStatusResult → StatusReply
  type_error other_error : StatusReply

abbrev pub service : String
service = "RECONCILIATION_SERVICE"

-- `try: status(id, key, provider_reference=...) except TypeError: status(id, key)`
unfoldable pub query_status :
    (String → String → Option String → StatusReply)
    → (String → String → StatusReply)
    → ConsequentialOperation
    → Result ProviderStatusResult
query_status with_reference without op =
    elim (with_reference op.id op.idempotency_key op.provider_reference) [
      | status_is r ↦ ok r
      | other_error ↦ err provider_error
      | type_error ↦ elim (without op.id op.idempotency_key) [
        | status_is r ↦ ok r
        | type_error ↦ err provider_error
        | other_error ↦ err provider_error
      ]
    ]

-- The entry under the deterministic id, or one whose memo names the operation.
abbrev pub is_settlement : ConsequentialOperation → String → LedgerEntry → Bool
is_settlement op tx e =
    str_eq e.transaction_id tx
    && str_eq e.from_account escrow
    && str_eq e.to_account external_sink
    && eqb_ℤ e.amount op.amount

abbrev pub names_settlement : ConsequentialOperation → LedgerEntry → Bool
names_settlement op e =
    is_inside op.id e.memo && str_eq e.to_account external_sink && eqb_ℤ e.amount op.amount

abbrev pub is_refund : ConsequentialOperation → String → LedgerEntry → Bool
is_refund op tx e =
    str_eq e.transaction_id tx
    && str_eq e.from_account escrow
    && str_eq e.to_account treasury
    && eqb_ℤ e.amount op.amount

abbrev pub names_refund : ConsequentialOperation → LedgerEntry → Bool
names_refund op e =
    is_inside op.id e.memo
    && str_eq e.to_account treasury
    && str_eq e.from_account escrow
    && eqb_ℤ e.amount op.amount

unfoldable pub already_settled : ConsequentialOperation → String → List LedgerEntry → Bool
already_settled op tx entries =
    any (is_settlement op tx) entries || any (names_settlement op) entries

unfoldable pub already_refunded : ConsequentialOperation → String → List LedgerEntry → Bool
already_refunded op tx entries = any (is_refund op tx) entries || any (names_refund op) entries

-- The errors whose text says so.
abbrev pub is_duplicate : Error → Bool
is_duplicate duplicate_transaction = true
is_duplicate integrity_transaction_id = true
is_duplicate integrity_entry_id = true
is_duplicate _ = false

-- `except`: a duplicate transaction is passed over, anything else raised again.
abbrev pub pass_duplicate : Result (Unit {0}) × World → Result (Unit {0}) × World
pass_duplicate (ok a, w) = (ok a, w)
pass_duplicate (err e, w) = if is_duplicate e then (ok tt, w) else (err e, w)

-- Pay the operation's amount out of escrow, unless it was paid or escrow does not cover it.
abbrev pub pay_once : Bool → Stamp → String → String → String → Exec (Unit {0})
pay_once is_done s destination memo tx w =
    if not is_done && leb_ℤ w.operation.amount (get_balance w.ledger escrow)
    then pass_duplicate ((transfer_amount s escrow destination memo tx >> refresh_treasury) w)
    else (ok tt, w)

abbrev pub found : Option Operations → String → Option ConsequentialOperation
found none id = none
found (some rows) id = get id rows

-- Whether the row that stands in the table by now is RECONCILED.
abbrev pub if_reconciled :
    Option ConsequentialOperation → Exec ConsequentialOperation → Exec ConsequentialOperation
if_reconciled none otherwise = otherwise
if_reconciled (some op) otherwise = if is_state op.state reconciled then returns op else otherwise

abbrev pub unless_reconciled : Exec ConsequentialOperation → Exec ConsequentialOperation
unless_reconciled otherwise w = if_reconciled (found w.operations w.operation.id) otherwise w

-- `if op.state != RECONCILED:` transition and save; the event in any case.
abbrev pub advance_unless_reconciled :
    Transition → String → (ConsequentialOperation → List (String × Field)) → Exec (Unit {0})
advance_unless_reconciled t event payload w =
    if is_state w.operation.state reconciled
    then append_event service event payload w
    else advance t service event payload w

unfoldable pub stay_unknown : ℕ → Exec ConsequentialOperation
stay_unknown now = do
  advance
      (record {
        new_state = unknown;
        error_message = some "Provider status remains unresolved; escrow preserved";
        provider_reference = none;
        now = now;
      })
      service "CONSEQUENTIAL_OPERATION_RECONCILIATION_UNRESOLVED"
      (λ op.
        ("operation_id", text op.id)
        ∷ ("state", text "unknown")
        ∷ ("escrow_locked", flag true)
        ∷ [])
  in_hand

-- `if op.state != RECONCILING:` make it so.
abbrev pub start_reconciling : ℕ → Exec (Unit {0})
start_reconciling now w =
    if is_state w.operation.state reconciling
    then (ok tt, w)
    else advance (to reconciling now) service "CONSEQUENTIAL_OPERATION_RECONCILING"
        (id_and (("state", text "reconciling") ∷ [])) w

abbrev pub is_terminal : OperationState → Bool
is_terminal s = is_state s succeeded || is_state s failed || is_state s reconciled

abbrev pub is_unresolved : OperationState → Bool
is_unresolved s = is_state s unknown || is_state s reconciling || is_state s submitted

module _ (sha256 : String → String) where
  abbrev pub settlement_tx : ConsequentialOperation → String
  settlement_tx op = str_append "tx-rec-" (short_hash sha256 op.id)

  abbrev pub refund_tx : ConsequentialOperation → String
  refund_tx op = str_append "rollback-rec-" (short_hash sha256 op.id)

  unfoldable pub settle_once : Stamp → Exec (Unit {0})
  settle_once s = if_positive (λ w.
      pay_once (already_settled w.operation (settlement_tx w.operation) w.ledger.entries) s
        external_sink (str_append "Reconciliation settlement for operation " w.operation.id)
        (settlement_tx w.operation) w)

  unfoldable pub refund_once : Stamp → Exec (Unit {0})
  refund_once s = if_positive (λ w.
      pay_once (already_refunded w.operation (refund_tx w.operation) w.ledger.entries) s treasury
        (str_append "Reconciliation escrow release for failed operation " w.operation.id)
        (refund_tx w.operation) w)

  -- The end of `reconcile_operation`, by the status that the provider reports.
  unfoldable pub confirm_success : Stamp → ℕ → ProviderStatusResult → Exec ConsequentialOperation
  confirm_success s now r = do
    settle_once s
    unless_reconciled (do
      advance_unless_reconciled
          (record {
            new_state = reconciled;
            error_message = none;
            provider_reference = r.provider_reference;
            now = now;
          })
          "CONSEQUENTIAL_OPERATION_RECONCILED_SUCCESS"
          (λ op.
            ("operation_id", text op.id)
            ∷ ("reference", optional r.provider_reference)
            ∷ ("evidence_hash", optional r.evidence_hash)
            ∷ ("settled_amount", number op.amount)
            ∷ [])
      in_hand)

  unfoldable pub confirm_failure : Stamp → ℕ → ProviderStatusResult → Exec ConsequentialOperation
  confirm_failure s now r = do
    refund_once s
    unless_reconciled (do
      advance_unless_reconciled
          (record {
            new_state = reconciled;
            error_message = some (or_else r.error_message "Provider confirmed failure");
            provider_reference = r.provider_reference;
            now = now;
          })
          "CONSEQUENTIAL_OPERATION_RECONCILED_FAILURE"
          (λ op.
            ("operation_id", text op.id)
            ∷ ("reason", optional r.error_message)
            ∷ ("refunded_amount", number op.amount)
            ∷ [])
      in_hand)

  unfoldable pub resolve : Stamp → ℕ → Result ProviderStatusResult → Exec ConsequentialOperation
  resolve s now (err x) = raises x
  resolve s now (ok r) =
      if str_eq r.outcome "SUCCESS"
      then confirm_success s now r
      else if str_eq r.outcome "FAILURE"
      then confirm_failure s now r
      else stay_unknown now

  module _ (with_reference : String → String → Option String → StatusReply)
      (without : String → String → StatusReply) where
    unfoldable pub reconcile_found :
        Stamp → ℕ → Organisation → ConsequentialOperation → Exec ConsequentialOperation
    reconcile_found s now org op w =
        if not (str_eq op.tenant_id org.tenant_id) || not (str_eq op.organisation_id org.id)
        then (err unauthorized, w)
        else if is_terminal op.state
        then (ok op, w)
        else if not (is_unresolved op.state)
        then (err reconciliation_error, w)
        else (do
          start_reconciling now
          in_hand >>= λ o. resolve s now (query_status with_reference without o))
            (record w { operation = op })

    abbrev pub reconcile_row :
        Stamp → ℕ → Organisation → Option ConsequentialOperation → Exec ConsequentialOperation
    reconcile_row s now org none = raises reconciliation_error
    reconcile_row s now org (some op) = reconcile_found s now org op

    unfoldable pub reconcile_operation :
        Stamp → ℕ → Organisation → String → Exec ConsequentialOperation
    reconcile_operation s now org id w = reconcile_row s now org (found w.operations id) w
