-- ===== src/Policy/Tests.antt =====
-- The policy engine at concrete inputs.
use kalyx_mao_engine.Base.{
  String, ◌≡◌, refl, false, none, some, [], ◌∷◌, arith, take_chars, split_dots, has_dot,
}
use kalyx_mao_engine.Base.Int.{pos}
use kalyx_mao_engine.Base.Dict.{lookup}
use kalyx_mao_engine.Entities.{
  approved, active, executing, AgentRecord, ActionProposal, Organisation, AuthorizationTokenClaims,
  get_content_hash,
}
use kalyx_mao_engine.Policy.Engine.{
  Library, PolicyEngine, Draw, valid, generate_token, verify_token, evaluate, check_rules, sign,
  get_policy_version_hash,
}
use kalyx_mao_engine.Policy.Decisions.{IsWithinLimits, core_rules, evaluate-approved_within}
use kalyx_mao_engine.Policy.Issue.{verify_token-generate_token}
use kalyx_mao_engine.Policy.Tokens.{Accepted, verify_token_sound}
use kalyx_mao_engine.Policy.Rules.{is_paused}

abbrev proposal : ActionProposal
proposal = record {
  id = "prop-1";
  task_id = "task-1";
  proposing_agent_id = "agent-1";
  action_type = "DATA_FETCH";
  target = "service";
  parameters = "{}";
  requested_credits = pos 10;
}

abbrev agent : AgentRecord
agent = record {
  id = "agent-1";
  role = "RESEARCHER";
  authority_ceiling = pos 25;
  allowed_action_types = "DATA_FETCH" ∷ [];
  status = active;
}

abbrev org : Organisation
org = record {
  id = "org";
  tenant_id = "tenant";
  treasury_balance = pos 100;
  state = executing;
  agents = ("agent-1", agent) ∷ [];
}

abbrev draw : Draw
draw = record { now = 5; decision_id = "dec-1"; nonce = "nonce-1" }

-- Claims are all alike here: what is read back is what this engine issues.
abbrev read : AuthorizationTokenClaims
read = record {
  org_id = "org";
  proposal_id = "prop-1";
  proposal_content_hash = "hash";
  decision_id = "dec-1";
  policy_version_hash = "hash";
  issued_at = 5;
  expires_at = 65;
  nonce = "nonce-1";
}

abbrev lib : Library
lib = record {
  hmac = λ key data_text. "signature";
  sha256 = λ t. "hash";
  decimal = λ n. "1";
  policy_text = λ rules n. "policy";
  round3 = λ t. t;
  encode_claims = λ c. "claims";
  decode_claims = λ t. some read;
}

abbrev engine : PolicyEngine
engine = record {
  rules = core_rules lib [];
  human_approval_threshold = pos 40;
  token_ttl = 60;
  secret = "secret";
}

approves : (evaluate lib engine draw proposal org none).result ≡ approved
unfolding evaluate check_rules lookup
approves = refl

evaluate-approved_within_example : IsWithinLimits lib engine proposal org none
evaluate-approved_within_example =
    evaluate-approved_within lib engine draw proposal org none [] refl approves

abbrev token : String
token = generate_token lib engine draw proposal org

verify_token-generate_token_example : verify_token lib engine 10 token proposal org none ≡ valid
unfolding has_dot take_chars get_content_hash get_policy_version_hash sign
verify_token-generate_token_example =
    verify_token-generate_token lib engine draw proposal org 10 none refl refl refl refl refl refl
      (omega arith)

accepted : verify_token lib engine 10 token proposal org none ≡ valid
unfolding has_dot take_chars get_content_hash get_policy_version_hash sign
accepted =
    verify_token-generate_token lib engine draw proposal org 10 none refl refl refl refl refl refl
      (omega arith)

verify_token_sound_example :
    (is_paused org.state ≡ false) × Accepted lib engine 10 proposal org none (split_dots token)
verify_token_sound_example = verify_token_sound lib engine 10 token proposal org none accepted
