-- ===== src/Entities.antt =====
-- The entities of src/domain/entities.py that several components read: agents, proposals, decisions,
-- organisations and the claims of a token. An ActionType is its value, a string; a dict of parameters
-- is its canonical JSON; the fields that no modelled method reads (scores, texts, creation times) are
-- left out.
use kalyx_mao_engine.Base.{ℕ, String, Option, List, str_append}
use kalyx_mao_engine.Base.Int.{ℤ}
use kalyx_mao_engine.Base.Dict.{Dict}

pub data AgentStatus : Type 0 where
  active probation restricted suspended retired : AgentStatus

pub data OrgState : Type 0 where
  initializing planning executing paused failed completed : OrgState

pub data PolicyResult : Type 0 where
  approved rejected escalate_to_human : PolicyResult

pub record AgentRecord : Type 0 where
  pub id : String
  pub role : String
  pub authority_ceiling : ℤ
  pub allowed_action_types : List String
  pub status : AgentStatus

pub record ActionProposal : Type 0 where
  pub id : String
  pub task_id : String
  pub proposing_agent_id : String
  pub action_type : String
  pub target : String
  pub parameters : String
  pub requested_credits : ℤ

pub record PolicyDecision : Type 0 where
  pub id : String
  pub proposal_id : String
  pub result : PolicyResult
  pub violated_rule_id : Option String
  pub violated_rule_description : Option String
  pub evaluated_rules : List String
  pub authorization_token : Option String

pub record Organisation : Type 0 where
  pub id : String
  pub tenant_id : String
  pub treasury_balance : ℤ
  pub state : OrgState
  pub agents : Dict AgentRecord

-- Times are in the clock's smallest unit.
pub record AuthorizationTokenClaims : Type 0 where
  pub org_id : String
  pub proposal_id : String
  pub proposal_content_hash : String
  pub decision_id : String
  pub policy_version_hash : String
  pub issued_at : ℕ
  pub expires_at : ℕ
  pub nonce : String

abbrev bar : String → String → String
bar a rest = str_append a (str_append "|" rest)

-- `get_content_hash`; the parameters go in by their own digest.
unfoldable pub get_content_hash :
    (sha256 : String → String) (decimal : ℤ → String) → ActionProposal → String
get_content_hash sha256 decimal p = sha256 (
    bar p.id (
      bar p.task_id (
        bar p.proposing_agent_id (
          bar p.action_type
            (bar p.target (bar (decimal p.requested_credits) (sha256 p.parameters)))))))
