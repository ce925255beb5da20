-- ===== src/Execution/Manager.antt =====
-- `ConsequentialExecutionManager` (src/execution/consequential.py): `authorize_operation`,
-- `escrow_operation` and `submit_operation`. The provider, SHA-256 and the decoding of a token's
-- claims are parameters.
use kalyx_mao_engine.Base.{
  ℕ, String, Bool, true, Option, none, some, List, [], ◌∷◌, ◌||◌, not, str_eq, str_append, or_else,
  if◌then◌else◌, take_chars, is_inside,
}
use kalyx_mao_engine.Base.Int.{ℤ, eqb_ℤ}
use kalyx_mao_engine.Base.Outcome.{invalid_transition, external_execution}
use kalyx_mao_engine.Ledger.{Stamp, LedgerEntry, treasury, escrow, external_sink}
use kalyx_mao_engine.Entities.{ActionProposal}
use kalyx_mao_engine.Operation.{
  OperationState, authorized, escrowed, submitted, succeeded, failed, unknown,
  ConsequentialOperation, Transition,
}
use kalyx_mao_engine.Execution.State.{
  Field, text, number, flag, absent, Exec, ◌>>=◌, ◌>>◌, returns, raises, observe, in_hand,
  require_state, if_positive, move_to, save, append_event, transfer_amount, refresh_treasury,
}

pub record ProviderExecutionResult : Type 0 where
  pub outcome : String
  pub provider_reference : Option String
  pub raw_response : String  -- as canonical JSON
  pub error_message : Option String
  pub evidence_hash : Option String

-- What `provider.execute` does: it raises with a message, or answers.
pub data Dispatch : Type 0 where
  transport_exception : String → Dispatch
  answered : ProviderExecutionResult → Dispatch

pub record ExecutionReceipt : Type 0 where
  pub id : String
  pub proposal_id : String
  pub authorization_token : String
  pub action_type : String
  pub target : String
  pub raw_response_hash : String
  pub raw_output : String
  pub cost_credits : ℤ

-- The fresh values that one call draws.
pub record Moment : Type 0 where
  pub stamp : Stamp
  pub first_at : ℕ
  pub last_at : ℕ
  pub receipt_id : String

abbrev pub executor : String
executor = "CONSEQUENTIAL_EXECUTOR"

abbrev pub optional : Option String → Field
optional none = absent
optional (some s) = text s

-- `operation.transition_to(...)`, then the repository's `save`, then the event.
unfoldable pub advance :
    Transition
    → String
    → String
    → (ConsequentialOperation → List (String × Field))
    → Exec (Unit {0})
advance t actor event payload = do move_to t; save; append_event actor event payload

abbrev pub to : OperationState → ℕ → Transition
to s now = record { new_state = s; error_message = none; provider_reference = none; now = now }

abbrev pub id_and : List (String × Field) → ConsequentialOperation → List (String × Field)
id_and rest op = ("operation_id", text op.id) ∷ rest

-- `next((entry for entry in entries if entry.transaction_id == tx_id), None)`
unfoldable pub find_transaction : String → List LedgerEntry → Option LedgerEntry
find_transaction tx [] = none
find_transaction tx (e ∷ es) =
    let rest = find_transaction tx es in if str_eq e.transaction_id tx then some e else rest

-- The row that is there was written by an earlier run for the same operation.
abbrev pub is_lock_of : ConsequentialOperation → LedgerEntry → Bool
is_lock_of op e = not (
    not (str_eq e.from_account treasury)
    || not (str_eq e.to_account escrow)
    || not (eqb_ℤ e.amount op.amount)
    || not (is_inside op.id e.memo))

module _ (sha256 : String → String) where
  abbrev pub short_hash : String → String
  short_hash s = take_chars 16 (sha256 s)

  abbrev pub lock_credits : Stamp → ConsequentialOperation → Option LedgerEntry → Exec (Unit {0})
  lock_credits s op (some e) = if is_lock_of op e then returns tt else raises invalid_transition
  lock_credits s op none =
      transfer_amount s treasury escrow
        (str_append "Escrow lock for consequential operation " op.id)
        (str_append "res-" (short_hash op.id))

  abbrev pub lock_if_absent : Stamp → Exec (Unit {0})
  lock_if_absent s w =
      lock_credits s w.operation
        (find_transaction (str_append "res-" (short_hash w.operation.id)) w.ledger.entries) w

  unfoldable pub escrow_operation : Stamp → ℕ → Exec (Unit {0})
  escrow_operation s now = do
    require_state authorized invalid_transition
    if_positive (lock_if_absent s >> refresh_treasury)
    advance (to escrowed now) executor "CONSEQUENTIAL_OPERATION_ESCROWED" (λ op.
        ("operation_id", text op.id)
        ∷ ("amount", number op.amount)
        ∷ ("state", text "escrowed")
        ∷ [])

  -- `decision.authorization_token or operation.id`
  abbrev pub settlement_id : String → Option String → ConsequentialOperation → String
  settlement_id prefix token op = str_append prefix (short_hash (or_else token op.id))

  abbrev pub settle : Stamp → String → String → String → Option String → Exec (Unit {0})
  settle s destination memo prefix token = if_positive (do
    op ← in_hand
    transfer_amount s escrow destination (str_append memo op.id) (settlement_id prefix token op)
    refresh_treasury)

  abbrev pub receipt :
      Moment
      → ActionProposal
      → Option String
      → ProviderExecutionResult
      → ConsequentialOperation
      → ExecutionReceipt
  receipt m p token r op = record {
    id = m.receipt_id;
    proposal_id = p.id;
    authorization_token = or_else token "TOKEN-MOCK";
    action_type = p.action_type;
    target = p.target;
    raw_response_hash = or_else r.evidence_hash (sha256 r.raw_response);
    raw_output = r.raw_response;
    cost_credits = op.amount;
  }

  -- The end of `submit_operation`, one function for each outcome.
  unfoldable pub commit :
      Moment → ActionProposal → Option String → ProviderExecutionResult → Exec ExecutionReceipt
  commit m p token r = do
    settle m.stamp external_sink "Settlement commit for consequential operation " "tx-" token
    advance
        (record {
          new_state = succeeded;
          error_message = none;
          provider_reference = r.provider_reference;
          now = m.last_at;
        })
        executor "CONSEQUENTIAL_OPERATION_SUCCEEDED"
        (λ op.
          ("operation_id", text op.id)
          ∷ ("reference", optional r.provider_reference)
          ∷ ("amount", number op.amount)
          ∷ ("evidence_hash", optional r.evidence_hash)
          ∷ [])
    observe (λ w. receipt m p token r w.operation)

  unfoldable pub roll_back :
      Moment → Option String → ProviderExecutionResult → Exec ExecutionReceipt
  roll_back m token r = do
    settle m.stamp treasury "Escrow rollback for failed consequential operation " "rollback-" token
    advance
        (record {
          new_state = failed;
          error_message = r.error_message;
          provider_reference = none;
          now = m.last_at;
        })
        executor "CONSEQUENTIAL_OPERATION_FAILED"
        (id_and (("reason", optional r.error_message) ∷ ("escrow_refunded", flag true) ∷ []))
    raises external_execution

  unfoldable pub leave_unknown :
      Moment → Option String → Option String → Field → Exec ExecutionReceipt
  leave_unknown m message reference reason = do
    advance
        (record {
          new_state = unknown;
          error_message = message;
          provider_reference = reference;
          now = m.last_at;
        })
        executor "CONSEQUENTIAL_OPERATION_UNKNOWN"
        (id_and (("error", reason) ∷ ("escrow_locked", flag true) ∷ []))
    raises external_execution

  unfoldable pub conclude :
      Moment → ActionProposal → Option String → Dispatch → Exec ExecutionReceipt
  conclude m p token (transport_exception e) =
      leave_unknown m (some (str_append "Transport exception during dispatch: " e)) none (text e)
  conclude m p token (answered r) =
      if str_eq r.outcome "SUCCESS"
      then commit m p token r
      else if str_eq r.outcome "FAILURE"
      then roll_back m token r
      else leave_unknown m
          (some (or_else r.error_message "Provider returned timeout/unknown outcome"))
          r.provider_reference (optional r.error_message)

  module _ (provider : ConsequentialOperation → Dispatch) where
    unfoldable pub submit_operation :
        Moment → ActionProposal → Option String → Exec ExecutionReceipt
    submit_operation m p token = do
      require_state escrowed invalid_transition
      advance (to submitted m.first_at) executor "CONSEQUENTIAL_OPERATION_SUBMITTED" (λ op.
          ("operation_id", text op.id)
          ∷ ("target", text op.target)
          ∷ ("state", text "submitted")
          ∷ [])
      op ← in_hand
      conclude m p token (provider op)
