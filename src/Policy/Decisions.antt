-- ===== src/Policy/Decisions.antt =====
-- What `evaluate` approves.
use kalyx_mao_engine.Base.{
  String, Bool, true, false, ◌≡◌, ◌≢◌, refl, Option, none, some, List, [], ◌∷◌, ◌++◌, map, arith,
  contains, is_empty, is_empty-append, Bool-cases, Option-cases, inl, inr, if◌then◌else◌,
}
use kalyx_mao_engine.Base.Int.{leb_ℤ, ◌≤ℤ◌, ◌<ℤ◌}
use kalyx_mao_engine.Base.Dict.{lookup}
use mathlib.Core.Path.{subst}
use kalyx_mao_engine.Ledger.{DoubleEntryLedger}
use kalyx_mao_engine.Entities.{
  approved, AgentRecord, ActionProposal, Organisation, AgentStatus, active, probation, restricted,
  suspended, retired,
}
use kalyx_mao_engine.Policy.Rules.{
  PolicyRule, is_paused, available, org_pause_rule, agent_status_rule, treasury_balance_rule,
  spend_limit_rule, role_permission_rule, status_violation,
}
use kalyx_mao_engine.Policy.Engine.{
  Library, PolicyEngine, Draw, Findings, passed, violated, judge, generate_token, check_rules,
  decide, evaluate,
}

-- The rule has nothing to say: `None`, or an empty text.
abbrev pub Passes : Option String → Type 0
Passes none = Unit
Passes (some reason) = is_empty reason ≡ true

abbrev pub AllPass :
    ActionProposal
    → AgentRecord
    → Organisation
    → Option DoubleEntryLedger
    → List String
    → List PolicyRule
    → Type 0
AllPass p a org ledger ids [] = Unit
AllPass p a org ledger ids (r ∷ rs) =
    Passes (r.evaluate p a org ledger ids) × AllPass p a org ledger ids rs

abbrev pub rule_ids : PolicyEngine → List String
rule_ids engine = map (λ (r : PolicyRule). r.rule_id) engine.rules

module _ (lib : Library) where
  judge-passed :
      (o : Option String) (r : PolicyRule) (so_far : List String) (rest : Findings)
      {ids : List String}
      → judge o r so_far rest ≡ passed ids
      → Passes o × (rest ≡ passed ids)
  judge-passed none r so_far rest h = (tt, h)
  judge-passed (some reason) r so_far rest h = ground (arith, h)

  check_rules-passed :
      (p : ActionProposal) (a : AgentRecord) (org : Organisation)
      (ledger : Option DoubleEntryLedger) (ids : List String) (rs : List PolicyRule)
      (before : List String) {evaluated : List String}
      → check_rules lib p a org ledger ids rs before ≡ passed evaluated
      → AllPass p a org ledger ids rs
  unfolding check_rules
  check_rules-passed p a org ledger ids [] before h = tt
  check_rules-passed p a org ledger ids (r ∷ rs) before h =
      let (fine, rest) = judge-passed (r.evaluate p a org ledger ids) r _ _ h in
      (fine, check_rules-passed p a org ledger ids rs (before ++ r.rule_id ∷ []) rest)

  -- What an approval says.
  pub record IsApproval (engine : PolicyEngine) (d : Draw) (p : ActionProposal) (org : Organisation)
      (ledger : Option DoubleEntryLedger) : Type 0 where
    pub agent : AgentRecord
    pub known : lookup p.proposing_agent_id org.agents ≡ some agent
    pub rules_pass : AllPass p agent org ledger (rule_ids engine) engine.rules
    pub below_threshold : p.requested_credits <ℤ engine.human_approval_threshold
    pub token :
        (evaluate lib engine d p org ledger).authorization_token
        ≡ some (generate_token lib engine d p org)

  decide-approved :
      (engine : PolicyEngine) (d : Draw) (p : ActionProposal) (org : Organisation) (f : Findings)
      → (decide lib engine d p org f).result ≡ approved
      → (ids : List String) × (f ≡ passed ids)
        × (p.requested_credits <ℤ engine.human_approval_threshold)
        × ((decide lib engine d p org f).authorization_token
            ≡ some (generate_token lib engine d p org))
  decide-approved engine d p org (violated r reason ids) h = cc
  decide-approved engine d p org (passed ids) h =
      elim (Bool-cases (leb_ℤ engine.human_approval_threshold p.requested_credits)) [
        | inl high ↦ cc (simp high at h)
        | inr low ↦ (ids, refl, ground (arith, low), simp low)
      ]

  -- An APPROVED decision is about an agent of the organisation, every rule of the engine passed, the
  -- requested credits are below the human approval threshold, and the token is the signed one.
  pub evaluate-approved :
      (engine : PolicyEngine) (d : Draw) (p : ActionProposal) (org : Organisation)
      (ledger : Option DoubleEntryLedger)
      → (evaluate lib engine d p org ledger).result ≡ approved
      → IsApproval engine d p org ledger
  unfolding evaluate
  evaluate-approved engine d p org ledger h =
      elim (Option-cases (lookup p.proposing_agent_id org.agents)) [
        | inl unknown ↦ cc (rw unknown at h)
        | inr (a, found) ↦
            let (ids, e, low, signed) = decide-approved engine d p org _ (rw found at h) in
            record {
              agent = a;
              known = found;
              rules_pass = check_rules-passed p a org ledger (rule_ids engine) engine.rules [] e;
              below_threshold = low;
              token = rw found signed;
            }
      ]

  -- If the engine has the rules on pauses, agents, the treasury, spending and roles, then whatever
  -- other rules it has, an APPROVED proposal is from an agent that is neither suspended nor retired,
  -- of an action type that the agent may propose, within the agent's ceiling, within the treasury,
  -- below the human approval threshold, and of an organisation that is not paused.
  pub record IsWithinLimits (engine : PolicyEngine) (p : ActionProposal) (org : Organisation)
      (ledger : Option DoubleEntryLedger) : Type 0 where
    pub agent : AgentRecord
    pub known : lookup p.proposing_agent_id org.agents ≡ some agent
    pub running : is_paused org.state ≡ false
    pub not_suspended : agent.status ≢ suspended
    pub not_retired : agent.status ≢ retired
    pub within_treasury : p.requested_credits ≤ℤ available org ledger
    pub within_ceiling : p.requested_credits ≤ℤ agent.authority_ceiling
    pub permitted : contains p.action_type agent.allowed_action_types ≡ true
    pub below_threshold : p.requested_credits <ℤ engine.human_approval_threshold

  abbrev pub core_rules : List PolicyRule → List PolicyRule
  core_rules others =
      org_pause_rule
      ∷ agent_status_rule
      ∷ treasury_balance_rule lib.decimal
      ∷ spend_limit_rule lib.decimal
      ∷ role_permission_rule
      ∷ others

  -- A rule that passes did not find what it looks for.
  Passes-if :
      (found : Bool) (reason : String)
      → is_empty reason ≡ false
      → Passes (if found then some reason else none)
      → found ≡ false
  Passes-if true reason told h = cc
  Passes-if false reason told h = refl

  clash : {b : Bool} → b ≡ false → b ≡ true → ⊥
  clash h h' = cc

  Passes-status :
      (s : AgentStatus) (p : ActionProposal) (a : AgentRecord)
      → Passes (status_violation s p a)
      → (s ≢ suspended) × (s ≢ retired)
  Passes-status active p a h = (λ e. cc, λ e. cc)
  Passes-status probation p a h = (λ e. cc, λ e. cc)
  Passes-status restricted p a h = (λ e. cc, λ e. cc)
  Passes-status suspended p a h = absurd (clash (is_empty-append "Agent '" _ refl) h)
  Passes-status retired p a h = absurd (clash (is_empty-append "Agent '" _ refl) h)

  pub evaluate-approved_within :
      (engine : PolicyEngine) (d : Draw) (p : ActionProposal) (org : Organisation)
      (ledger : Option DoubleEntryLedger) (others : List PolicyRule)
      → engine.rules ≡ core_rules others
      → (evaluate lib engine d p org ledger).result ≡ approved
      → IsWithinLimits engine p org ledger
  evaluate-approved_within engine d p org ledger others has h =
      let a = evaluate-approved engine d p org ledger h in
      let (pause, (status, (treasury_rule, (spend, (role, rest))))) : AllPass p a.agent org ledger
          (rule_ids engine) (core_rules others) =
        subst (λ rs. AllPass p a.agent org ledger (rule_ids engine) rs) has a.rules_pass in
      let (not_suspended, not_retired) = Passes-status a.agent.status p a.agent status in
      record {
        agent = a.agent;
        known = a.known;
        running = Passes-if _ _ refl pause;
        not_suspended = not_suspended;
        not_retired = not_retired;
        within_treasury =
            ground (arith, Passes-if _ _ (is_empty-append "Requested " _ refl) treasury_rule);
        within_ceiling = ground (arith, Passes-if _ _ (is_empty-append "Requested " _ refl) spend);
        permitted = ground (arith, Passes-if _ _ (is_empty-append "Action type '" _ refl) role);
        below_threshold = a.below_threshold;
      }
