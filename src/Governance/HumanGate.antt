-- ===== src/Governance/HumanGate.antt =====
-- `HumanGate` (src/governance/human_gate.py): the kill switch of an organisation, and the proposals
-- that wait for an operator. SHA-256 is a parameter; `uuid` is the identifier that is drawn.
use kalyx_mao_engine.Base.{String, Option, none, some, [], ◌∷◌, str_append, take_chars}
use kalyx_mao_engine.Base.Dict.{Dict, lookup, insert, remove}
use kalyx_mao_engine.Entities.{
  ActionProposal, PolicyDecision, Organisation, OrgState, paused, executing, approved, rejected,
}

abbrev pub HumanGate : Type 0
HumanGate = Dict ActionProposal

unfoldable pub trigger_kill_switch : Organisation → Organisation
trigger_kill_switch org = record org { state = paused }

abbrev state_after_pause : OrgState → OrgState
state_after_pause paused = executing
state_after_pause s = s

unfoldable pub resume_from_pause : Organisation → Organisation
resume_from_pause org = record org { state = state_after_pause org.state }

unfoldable pub submit_for_human_review : ActionProposal → HumanGate → HumanGate
submit_for_human_review p = insert p.id p

module _ (sha256 : String → String) where
  unfoldable pub human_token : String → String → String
  human_token proposal_id operator =
      let digest =
        sha256 (str_append "HUMAN-AUTH|" (str_append proposal_id (str_append "|" operator))) in
      str_append "HUMAN-AUTH-"
        (str_append (take_chars 8 proposal_id) (str_append "-" (take_chars 16 digest)))

  abbrev pub approval_of : String → String → String → PolicyDecision
  approval_of uuid proposal_id operator = record {
    id = uuid;
    proposal_id = proposal_id;
    result = approved;
    violated_rule_id = none;
    violated_rule_description = some (str_append "Approved by operator " operator);
    evaluated_rules = "RULE-05-HUMAN-OVERRIDE" ∷ [];
    authorization_token = some (human_token proposal_id operator);
  }

  -- `none` is the KeyError of a proposal that does not wait; the gate is then as it was.
  unfoldable pub approve_escalation :
      String → String → String → HumanGate → Option (PolicyDecision × HumanGate)
  approve_escalation uuid proposal_id operator gate = elim (lookup proposal_id gate) [
    | none ↦ none
    | some p ↦ some (approval_of uuid proposal_id operator, remove proposal_id gate)
  ]

abbrev rejection_of : String → String → String → String → PolicyDecision
rejection_of uuid proposal_id reason operator = record {
  id = uuid;
  proposal_id = proposal_id;
  result = rejected;
  violated_rule_id = some "RULE-05-HUMAN-REJECTED";
  violated_rule_description =
      some (str_append "Rejected by operator " (str_append operator (str_append ": " reason)));
  evaluated_rules = "RULE-05-HUMAN-OVERRIDE" ∷ [];
  authorization_token = none;
}

unfoldable pub reject_escalation :
    String → String → String → String → HumanGate → Option (PolicyDecision × HumanGate)
reject_escalation uuid proposal_id reason operator gate = elim (lookup proposal_id gate) [
  | none ↦ none
  | some p ↦ some (rejection_of uuid proposal_id reason operator, remove proposal_id gate)
]
