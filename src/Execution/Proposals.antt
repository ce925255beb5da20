-- ===== src/Execution/Proposals.antt =====
-- The way of a proposal through the boundary: `enforce_agent_capability`
-- (src/security/capabilities.py), `create_operation`, `authorize_operation` and `execute_proposal`
-- (src/execution/consequential.py). The fingerprint of an operation is compared by what it digests.
use kalyx_mao_engine.Base.{
  ℕ, String, Bool, true, false, Option, none, some, List, [], ◌∷◌, ◌||◌, not, contains, str_eq,
  str_append, is_empty, or_else, if◌then◌else◌, split_dots, ◌&&◌,
}
use kalyx_mao_engine.Base.Int.{ltb_ℤ}
use kalyx_mao_engine.Base.Dict.{lookup}
use kalyx_mao_engine.Base.Outcome.{
  Result, ok, err, policy_violation, unauthorized, idempotency_conflict, external_execution,
  invalid_transition, token_already_consumed, missing_argument,
}
use kalyx_mao_engine.Ledger.{Stamp}
use kalyx_mao_engine.Entities.{
  PolicyResult, approved, AgentStatus, active, AgentRecord, ActionProposal, PolicyDecision,
  Organisation, AuthorizationTokenClaims,
}
use kalyx_mao_engine.Operation.{
  OperationState, created, authorized, escrowed, submitted, succeeded, failed, unknown, reconciling,
  ConsequentialOperation, is_state,
}
use kalyx_mao_engine.Journal.Token.{Consumptions, consume}
use kalyx_mao_engine.Policy.Engine.{
  Library, PolicyEngine, Verdict, valid, verify_token, content_hash,
}
use kalyx_mao_engine.Execution.State.{
  Field, text, number, Exec, Operations, ◌>>◌, returns, raises, save, append_event,
  get_by_idempotency_key, move_to,
}
use kalyx_mao_engine.Execution.Manager.{
  Dispatch, ExecutionReceipt, Moment, advance, to, id_and, executor, escrow_operation,
  submit_operation,
}

abbrev pub is_approved : PolicyResult → Bool
is_approved approved = true
is_approved _ = false

abbrev is_active : AgentStatus → Bool
is_active active = true
is_active _ = false

abbrev is_valid : Verdict → Bool
is_valid valid = true
is_valid _ = false

abbrev may_propose : ActionProposal → Option AgentRecord → Bool
may_propose p none = false
may_propose p (some a) =
    is_active a.status
    && contains p.action_type a.allowed_action_types
    && not (ltb_ℤ a.authority_ceiling p.requested_credits)

-- Whether the checks of `enforce_agent_capability` pass; each failure raises the same exception.
unfoldable pub enforce_agent_capability : ActionProposal → Organisation → Bool
enforce_agent_capability p org = may_propose p (lookup p.proposing_agent_id org.agents)

-- The fresh values and the caller's key.
pub record Request : Type 0 where
  pub now : ℕ
  pub operation_id : String
  pub key : Option String
  pub lock_stamp : Stamp
  pub moment : Moment
  pub provider_name : String

-- `idempotency_key or f"{org.id}:{proposal.id}"`
abbrev pub key_of : Request → ActionProposal → Organisation → String
key_of q p org = or_else q.key (str_append org.id (str_append ":" p.id))

abbrev pub operation_of :
    Request → ActionProposal → PolicyDecision → Organisation → ConsequentialOperation
operation_of q p decision org = record {
  id = q.operation_id;
  tenant_id = org.tenant_id;
  organisation_id = org.id;
  proposal_id = p.id;
  decision_id = decision.id;
  idempotency_key = key_of q p org;
  action_type = p.action_type;
  target = p.target;
  parameters = p.parameters;
  amount = p.requested_credits;
  provider_name = q.provider_name;
  provider_reference = none;
  state = created;
  error_message = none;
  created_at = q.now;
  updated_at = q.now;
}

-- What `op.model_dump()` holds of the fields that are kept.
abbrev dump : ConsequentialOperation → List (String × Field)
dump op =
    ("id", text op.id)
    ∷ ("tenant_id", text op.tenant_id)
    ∷ ("organisation_id", text op.organisation_id)
    ∷ ("proposal_id", text op.proposal_id)
    ∷ ("decision_id", text op.decision_id)
    ∷ ("idempotency_key", text op.idempotency_key)
    ∷ ("action_type", text op.action_type)
    ∷ ("target", text op.target)
    ∷ ("parameters", text op.parameters)
    ∷ ("amount", number op.amount)
    ∷ ("provider_name", text op.provider_name)
    ∷ ("state", text "created")
    ∷ []

module _ (lib : Library) (json : ConsequentialOperation → String) (engine : PolicyEngine) where
  -- `get_fingerprint`, with the canonical JSON of the compared fields.
  abbrev fingerprint : ConsequentialOperation → String
  fingerprint op = lib.sha256 (json op)

  abbrev pub register : ConsequentialOperation → Option ConsequentialOperation → Exec (Unit {0})
  register op (some existing) w =
      if not (str_eq existing.tenant_id op.tenant_id)
        || not (str_eq existing.organisation_id op.organisation_id)
      then (err unauthorized, w)
      else if not (str_eq (fingerprint existing) (fingerprint op))
      then (err idempotency_conflict, w)
      else (ok tt, record w { operation = existing })
  register op none w =
      (save >> append_event executor "CONSEQUENTIAL_OPERATION_CREATED" dump)
        (record w { operation = op })

  abbrev pub by_key : String → Option Operations → Option ConsequentialOperation
  by_key key none = none
  by_key key (some rows) = get_by_idempotency_key key rows

  abbrev pub admits :
      Request → ActionProposal → PolicyDecision → Organisation → Option String → Bool
  admits q p decision org none = false
  admits q p decision org (some token) =
      not (is_empty token)
      && is_valid (verify_token lib engine q.now token p org (some decision))
      && enforce_agent_capability p org

  -- The operation goes in hand.
  unfoldable pub create_operation :
      Request → ActionProposal → PolicyDecision → Organisation → Exec (Unit {0})
  create_operation q p decision org w =
      if not (is_approved decision.result)
      then (err policy_violation, w)
      else if not (admits q p decision org decision.authorization_token)
      then (err unauthorized, w)
      else register (operation_of q p decision org) (by_key (key_of q p org) w.operations) w

  abbrev pub claims_part : List String → Option AuthorizationTokenClaims
  claims_part (head ∷ claims ∷ rest) = lib.decode_claims claims
  claims_part _ = none

  abbrev pub consumed : ℕ → Result Consumptions → Exec (Unit {0})
  consumed now (ok rows) w = (ok tt, record w { consumptions = some rows })
  consumed now (err token_already_consumed) w =
      (move_to (record {
        new_state = failed;
        error_message = some "Authorization token already consumed";
        provider_reference = none;
        now = now;
      })
          >> (save >> raises unauthorized))
        w
  consumed now (err e) w = (err e, w)

  abbrev pub consume_claims :
      Request
      → ActionProposal
      → PolicyDecision
      → Organisation
      → String
      → Consumptions
      → Option AuthorizationTokenClaims
      → Exec (Unit {0})
  consume_claims q p decision org token rows none = raises missing_argument
  consume_claims q p decision org token rows (some c) = consumed q.now (
      consume
        (record {
          nonce = c.nonce;
          org_id = org.id;
          proposal_id = p.id;
          proposal_content_hash = content_hash lib p;
          decision_id = decision.id;
          policy_version_hash = c.policy_version_hash;
          token_fingerprint = lib.sha256 token;
          consumed_at = q.now;
        })
        rows)

  abbrev pub consume_token :
      Request
      → ActionProposal
      → PolicyDecision
      → Organisation
      → String
      → Option Consumptions
      → Exec (Unit {0})
  consume_token q p decision org token none = returns tt
  consume_token q p decision org token (some rows) =
      consume_claims q p decision org token rows (claims_part (split_dots token))

  unfoldable pub authorize_operation :
      Request → ActionProposal → PolicyDecision → Organisation → Exec (Unit {0})
  authorize_operation q p decision org w =
      if is_empty (or_else decision.authorization_token "")
      then (err unauthorized, w)
      else (consume_token q p decision org (or_else decision.authorization_token "") w.consumptions
            >> advance (to authorized q.now) executor "CONSEQUENTIAL_OPERATION_AUTHORIZED"
                (id_and (("state", text "authorized") ∷ [])))
          w

  -- `if op.state == s:`
  abbrev pub if_state : OperationState → Exec (Unit {0}) → Exec (Unit {0})
  if_state s m w = if is_state w.operation.state s then m w else (ok tt, w)

  abbrev pub is_unsettled : OperationState → Bool
  is_unsettled s =
      is_state s unknown || is_state s reconciling || is_state s submitted || is_state s failed

  module _ (provider : ConsequentialOperation → Dispatch) where
    abbrev pub replayed :
        Request → ActionProposal → PolicyDecision → ConsequentialOperation → ExecutionReceipt
    replayed q p decision op = record {
      id = q.moment.receipt_id;
      proposal_id = p.id;
      authorization_token = or_else decision.authorization_token "TOKEN-MOCK";
      action_type = p.action_type;
      target = p.target;
      raw_response_hash = lib.sha256 op.idempotency_key;
      raw_output = or_else op.provider_reference "";
      cost_credits = op.amount;
    }

    abbrev pub finish : Request → ActionProposal → PolicyDecision → Exec ExecutionReceipt
    finish q p decision w =
        if is_state w.operation.state escrowed
        then submit_operation lib.sha256 provider q.moment p decision.authorization_token w
        else (err invalid_transition, w)

    -- What follows `create_operation`.
    unfoldable pub continue_operation :
        Request → ActionProposal → PolicyDecision → Organisation → Exec ExecutionReceipt
    continue_operation q p decision org w =
        if is_state w.operation.state succeeded
        then (ok (replayed q p decision w.operation), w)
        else if is_unsettled w.operation.state
        then (err external_execution, w)
        else (if_state created (authorize_operation q p decision org)
              >> (if_state authorized (escrow_operation lib.sha256 q.lock_stamp q.now)
                  >> finish q p decision))
            w

    unfoldable pub execute_proposal :
        Request → ActionProposal → PolicyDecision → Organisation → Exec ExecutionReceipt
    execute_proposal q p decision org =
        create_operation q p decision org >> continue_operation q p decision org
