-- ===== src/Execution/ProposalTests.antt =====
-- `execute_proposal` at a concrete decision, engine and provider.
use kalyx_mao_engine.Base.{none, some, []}
use kalyx_mao_engine.Base.Int.{pos}
use kalyx_mao_engine.Ledger.{Stamp}
use kalyx_mao_engine.Entities.{approved, executing, ActionProposal, PolicyDecision, Organisation}
use kalyx_mao_engine.Operation.{ConsequentialOperation}
use kalyx_mao_engine.Policy.Engine.{Library, PolicyEngine}
use kalyx_mao_engine.Execution.Manager.{Dispatch, transport_exception}
use kalyx_mao_engine.Execution.Soundness.{KeepsSound}
use kalyx_mao_engine.Execution.Proposals.{Request, execute_proposal}
use kalyx_mao_engine.Execution.ProposalSoundness.{execute_proposal-KeepsSound}

abbrev lib : Library
lib = record {
  hmac = λ key data_text. "signature";
  sha256 = λ t. t;
  decimal = λ n. "1";
  policy_text = λ rules n. "policy";
  round3 = λ t. t;
  encode_claims = λ c. c.nonce;
  decode_claims = λ t. none;
}

abbrev engine : PolicyEngine
engine = record { rules = []; human_approval_threshold = pos 40; token_ttl = 60; secret = "s" }

abbrev stamp : Stamp
stamp = record { entry_id = "e"; uuid = "u"; now = 0 }

abbrev request : Request
request = record {
  now = 5;
  operation_id = "op-1";
  key = none;
  lock_stamp = stamp;
  moment = record { stamp = stamp; first_at = 6; last_at = 7; receipt_id = "r" };
  provider_name = "simulated";
}

abbrev proposal : ActionProposal
proposal = record {
  id = "prop-1";
  task_id = "task-1";
  proposing_agent_id = "agent-1";
  action_type = "EXTERNAL_API_CALL";
  target = "service";
  parameters = "{}";
  requested_credits = pos 10;
}

abbrev decision : PolicyDecision
decision = record {
  id = "dec-1";
  proposal_id = "prop-1";
  result = approved;
  violated_rule_id = none;
  violated_rule_description = none;
  evaluated_rules = [];
  authorization_token = some "AUTH-prop-1.claims.signature";
}

abbrev org : Organisation
org = record {
  id = "org";
  tenant_id = "tenant";
  treasury_balance = pos 100;
  state = executing;
  agents = [];
}

abbrev lost : ConsequentialOperation → Dispatch
lost op = transport_exception "timeout"

execute_proposal-KeepsSound_example :
    KeepsSound (execute_proposal lib (λ op. op.id) engine lost request proposal decision org)
execute_proposal-KeepsSound_example =
    execute_proposal-KeepsSound lib (λ op. op.id) engine lost request proposal decision org
