-- ===== src/Policy/Rules.antt =====
-- The six core rules of src/governance/rules.py. The decimal text of an int, which the messages hold,
-- is a parameter.
use kalyx_mao_engine.Base.{
  String, Bool, true, false, Option, none, some, List, [], ◌∷◌, ◌||◌, not, any, contains, str_eq,
  str_append, starts_with, if◌then◌else◌,
}
use kalyx_mao_engine.Base.Int.{ℤ, pos, ltb_ℤ}
use kalyx_mao_engine.Ledger.{DoubleEntryLedger, get_balance, treasury}
use kalyx_mao_engine.Entities.{
  AgentStatus, active, probation, restricted, suspended, retired, OrgState, paused, AgentRecord,
  ActionProposal, Organisation,
}

-- `evaluate` returns the reason of a violation. It sees the ledger, if there is one, and the ids of
-- all the rules of the engine.
pub record PolicyRule : Type 0 where
  pub rule_id : String
  pub description : String
  pub evaluate :
      ActionProposal
      → AgentRecord
      → Organisation
      → Option DoubleEntryLedger
      → List String
      → Option String

abbrev pub is_paused : OrgState → Bool
is_paused paused = true
is_paused _ = false

abbrev pub status_value : AgentStatus → String
status_value active = "ACTIVE"
status_value probation = "PROBATION"
status_value restricted = "RESTRICTED"
status_value suspended = "SUSPENDED"
status_value retired = "RETIRED"

-- `ledger.get_balance("TREASURY") if ledger is not None else org.treasury_balance`
abbrev pub available : Organisation → Option DoubleEntryLedger → ℤ
available org none = org.treasury_balance
available org (some l) = get_balance l treasury

abbrev all_of : List String → String
all_of [] = ""
all_of (s ∷ ss) = str_append s (all_of ss)

abbrev has_prefix : List String → String → Bool
has_prefix prefixes s = any (λ p. starts_with s p) prefixes

abbrev pub org_pause_rule : PolicyRule
org_pause_rule = record {
  rule_id = "RULE-06";
  description = "No actions may execute when organisation is paused";
  evaluate = λ p a org ledger ids.
      if is_paused org.state then some "Organisation is PAUSED by emergency kill switch" else none;
}

-- The violation by an agent of each status.
abbrev pub status_violation : AgentStatus → ActionProposal → AgentRecord → Option String
status_violation suspended p a =
    some (all_of ("Agent '" ∷ a.id ∷ "' is SUSPENDED and cannot propose actions" ∷ []))
status_violation retired p a =
    some (all_of ("Agent '" ∷ a.id ∷ "' is RETIRED and cannot propose actions" ∷ []))
status_violation restricted p a =
    if not (str_eq p.action_type "INTERNAL_ANALYSIS")
    then some
        (all_of ("Agent '" ∷ a.id ∷ "' is RESTRICTED and can only perform INTERNAL_ANALYSIS" ∷ []))
    else if ltb_ℤ (pos 0) p.requested_credits
    then some (all_of ("Agent '" ∷ a.id ∷ "' is RESTRICTED and cannot request credits (>0)" ∷ []))
    else none
status_violation active p a = none
status_violation probation p a = none

abbrev pub agent_status_rule : PolicyRule
agent_status_rule = record {
  rule_id = "RULE-07";
  description =
      "Suspended or retired agents cannot propose actions; restricted agents can only propose internal analysis with zero credits";
  evaluate = λ p a org ledger ids. status_violation a.status p a;
}

abbrev pub role_permission_rule : PolicyRule
role_permission_rule = record {
  rule_id = "RULE-03";
  description = "Action type must be in agent allowed action types";
  evaluate = λ p a org ledger ids.
      if not (contains p.action_type a.allowed_action_types)
      then some (
          all_of
            ("Action type '" ∷ p.action_type ∷ "' is not permitted for role '" ∷ a.role ∷ "'" ∷ []))
      else none;
}

abbrev exempt_types : List String
exempt_types =
    "PROPOSE_CAPABILITY_EXPANSION" ∷ "PUBLISH_MARKETPLACE_ORDER" ∷ "CLAIM_MARKETPLACE_ORDER"
    ∷ "RELEASE_MARKETPLACE_ESCROW" ∷ "EXECUTE_WORK_ORDER" ∷ "COLLECT_REVENUE" ∷ []

abbrev pub target_allowlist_rule : List String → PolicyRule
target_allowlist_rule approved_targets = record {
  rule_id = "RULE-04";
  description = "Target endpoint must be on the approved allowlist";
  evaluate = λ p a org ledger ids.
      if str_eq p.action_type "BLOCKCHAIN_TRANSACTION"
        || has_prefix ("blockchain://" ∷ "evm://" ∷ "sepolia://" ∷ []) p.target
      then none
      else if contains p.action_type ("EXTERNAL_INFERENCE" ∷ "ORBIO_KEY_LIFECYCLE" ∷ [])
      then none
      else if str_eq p.action_type "ORBIO_CREDIT_PURCHASE"
      then (if not (contains "RULE-ORBIO-PURCHASE-01" ids)
          then some
              "ORBIO_CREDIT_PURCHASE not authorized: dedicated OrbioPurchaseGovernanceRule is required but not registered in PolicyEngine"
          else none)
      else if has_prefix ("orbio://" ∷ "marketplace://" ∷ "capability://" ∷ []) p.target
      then none
      else if contains p.action_type exempt_types
      then none
      else if not (contains p.target approved_targets)
      then some
          (all_of ("Target '" ∷ p.target ∷ "' is not on the approved destination allowlist" ∷ []))
      else none;
}

module _ (decimal : ℤ → String) where
  abbrev pub spend_limit_rule : PolicyRule
  spend_limit_rule = record {
    rule_id = "RULE-01";
    description = "Requested credits cannot exceed agent authority ceiling";
    evaluate = λ p a org ledger ids.
        if ltb_ℤ a.authority_ceiling p.requested_credits
        then some (
            all_of (
              "Requested "
              ∷ decimal p.requested_credits
              ∷ " credits exceeds authority ceiling of "
              ∷ decimal a.authority_ceiling
              ∷ []))
        else none;
  }

  abbrev pub treasury_balance_rule : PolicyRule
  treasury_balance_rule = record {
    rule_id = "RULE-02";
    description = "Requested credits cannot exceed organisation treasury balance";
    evaluate = λ p a org ledger ids.
        if ltb_ℤ (available org ledger) p.requested_credits
        then some (
            all_of (
              "Requested "
              ∷ decimal p.requested_credits
              ∷ " credits exceeds available treasury ("
              ∷ decimal (available org ledger)
              ∷ ")"
              ∷ []))
        else none;
  }
