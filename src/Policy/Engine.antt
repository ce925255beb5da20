-- ===== src/Policy/Engine.antt =====
-- `PolicyEngine` (src/governance/policy_engine.py) with the HMAC signer and verifier of
-- src/governance/crypto.py. HMAC, SHA-256, the texts of an int, of the policy's fingerprint and of a
-- token's claims, and the decoding of claims are parameters, in one record.
use kalyx_mao_engine.Base.{
  ℕ, ◌+◌, String, Bool, false, Option, none, some, List, [], ◌∷◌, ◌++◌, not, map, str_eq,
  str_append, starts_with, is_empty, take_chars, split_dots, if◌then◌else◌, ltb,
}
use kalyx_mao_engine.Base.Int.{ℤ, leb_ℤ}
use kalyx_mao_engine.Base.Dict.{lookup}
use kalyx_mao_engine.Ledger.{DoubleEntryLedger}
use kalyx_mao_engine.Entities.{
  approved, rejected, escalate_to_human, AgentRecord, ActionProposal, PolicyDecision, Organisation,
  AuthorizationTokenClaims, get_content_hash,
}
use kalyx_mao_engine.Policy.Rules.{PolicyRule, is_paused}

pub record Library : Type 0 where
  pub hmac : String → String → String
  pub sha256 : String → String
  pub decimal : ℤ → String
  pub policy_text : List (String × String) → ℤ → String
  pub round3 : ℕ → ℕ
  pub encode_claims : AuthorizationTokenClaims → String
  pub decode_claims : String → Option AuthorizationTokenClaims

pub record PolicyEngine : Type 0 where
  pub rules : List PolicyRule
  pub human_approval_threshold : ℤ
  pub token_ttl : ℕ
  pub secret : String

-- The fresh values that a call draws: the time and two uuids.
pub record Draw : Type 0 where
  pub now : ℕ
  pub decision_id : String
  pub nonce : String

-- Why `verify_token` refuses a token, in the order of its tests.
pub data Verdict : Type 0 where
  valid missing org_paused malformed forged unreadable expired : Verdict
  other_org other_proposal other_content other_decision other_policy : Verdict

-- What the loop over the rules found.
pub data Findings : Type 0 where
  passed : List String → Findings
  violated : PolicyRule → String → List String → Findings

abbrev pub judge : Option String → PolicyRule → List String → Findings → Findings
judge none rule ids rest = rest
judge (some reason) rule ids rest = if is_empty reason then rest else violated rule reason ids

-- `if decision and claims.decision_id != decision.id`
abbrev pub decision_differs : Option PolicyDecision → AuthorizationTokenClaims → Bool
decision_differs none c = false
decision_differs (some d) c = not (str_eq c.decision_id d.id)

module _ (lib : Library) where
  abbrev pub content_hash : ActionProposal → String
  content_hash = get_content_hash lib.sha256 lib.decimal

  unfoldable pub get_policy_version_hash : PolicyEngine → String
  get_policy_version_hash engine = lib.sha256 (
      lib.policy_text (map (λ (r : PolicyRule). (r.rule_id, r.description)) engine.rules)
        engine.human_approval_threshold)

  -- `to_b64`
  abbrev pub to_b64 : AuthorizationTokenClaims → String
  to_b64 c =
      lib.encode_claims
        (record c { issued_at = lib.round3 c.issued_at; expires_at = lib.round3 c.expires_at })

  abbrev pub claims_of :
      PolicyEngine → Draw → ActionProposal → Organisation → AuthorizationTokenClaims
  claims_of engine d p org = record {
    org_id = org.id;
    proposal_id = p.id;
    proposal_content_hash = content_hash p;
    decision_id = d.decision_id;
    policy_version_hash = get_policy_version_hash engine;
    issued_at = d.now;
    expires_at = d.now + engine.token_ttl;
    nonce = d.nonce;
  }

  unfoldable pub sign : PolicyEngine → String → String
  sign engine data_text = lib.hmac engine.secret data_text

  unfoldable pub verify : PolicyEngine → String → String → Bool
  verify engine data_text signature = str_eq signature (lib.hmac engine.secret data_text)

  -- AUTH-<proposal_id[:8]>.<claims>.<signature>
  unfoldable pub generate_token : PolicyEngine → Draw → ActionProposal → Organisation → String
  generate_token engine d p org =
      let claims = to_b64 (claims_of engine d p org) in
      str_append (str_append "AUTH-" (take_chars 8 p.id))
        (str_append "." (str_append claims (str_append "." (sign engine claims))))

  abbrev pub check_claims :
      PolicyEngine
      → ℕ
      → ActionProposal
      → Organisation
      → Option PolicyDecision
      → Option AuthorizationTokenClaims
      → Verdict
  check_claims engine now p org decision none = unreadable
  check_claims engine now p org decision (some c) =
      if ltb c.expires_at now
      then expired
      else if not (str_eq c.org_id org.id)
      then other_org
      else if not (str_eq c.proposal_id p.id)
      then other_proposal
      else if not (str_eq c.proposal_content_hash (content_hash p))
      then other_content
      else if decision_differs decision c
      then other_decision
      else if not (str_eq c.policy_version_hash (get_policy_version_hash engine))
      then other_policy
      else valid

  abbrev pub check_parts :
      PolicyEngine
      → ℕ
      → ActionProposal
      → Organisation
      → Option PolicyDecision
      → List String
      → Verdict
  check_parts engine now p org decision (head ∷ claims ∷ signature ∷ []) =
      if not (starts_with head "AUTH-")
      then malformed
      else if not (verify engine claims signature)
      then forged
      else check_claims engine now p org decision (lib.decode_claims claims)
  check_parts engine now p org decision _ = malformed

  unfoldable pub verify_token :
      PolicyEngine → ℕ → String → ActionProposal → Organisation → Option PolicyDecision → Verdict
  verify_token engine now token p org decision =
      if is_empty token
      then missing
      else if is_paused org.state
      then org_paused
      else check_parts engine now p org decision (split_dots token)

  -- The loop, with the ids of the rules that came before.
  unfoldable pub check_rules :
      ActionProposal
      → AgentRecord
      → Organisation
      → Option DoubleEntryLedger
      → List String
      → List PolicyRule
      → List String
      → Findings
  check_rules p a org ledger ids [] before = passed before
  check_rules p a org ledger ids (r ∷ rs) before =
      let so_far = before ++ r.rule_id ∷ [] in
      let rest = check_rules p a org ledger ids rs so_far in
      judge (r.evaluate p a org ledger ids) r so_far rest

  abbrev pub decide :
      PolicyEngine → Draw → ActionProposal → Organisation → Findings → PolicyDecision
  decide engine d p org (violated r reason ids) = record {
    id = d.decision_id;
    proposal_id = p.id;
    result = rejected;
    violated_rule_id = some r.rule_id;
    violated_rule_description = some reason;
    evaluated_rules = ids;
    authorization_token = none;
  }
  decide engine d p org (passed ids) =
      if leb_ℤ engine.human_approval_threshold p.requested_credits
      then record {
        id = d.decision_id;
        proposal_id = p.id;
        result = escalate_to_human;
        violated_rule_id = some "RULE-05";
        violated_rule_description = some (
            str_append "Requested " (
              str_append (lib.decimal p.requested_credits)
                " credits requires explicit human approval"));
        evaluated_rules = ids ++ "RULE-05" ∷ [];
        authorization_token = none;
      }
      else record {
        id = d.decision_id;
        proposal_id = p.id;
        result = approved;
        violated_rule_id = none;
        violated_rule_description = none;
        evaluated_rules = ids;
        authorization_token = some (generate_token engine d p org);
      }

  abbrev pub evaluate_agent :
      PolicyEngine
      → Draw
      → ActionProposal
      → Organisation
      → Option DoubleEntryLedger
      → Option AgentRecord
      → PolicyDecision
  evaluate_agent engine d p org ledger none = record {
    id = d.decision_id;
    proposal_id = p.id;
    result = rejected;
    violated_rule_id = some "RULE-AUTH";
    violated_rule_description =
        some (
          str_append "Agent '"
            (str_append p.proposing_agent_id "' does not exist in organisation"));
    evaluated_rules = "RULE-AUTH" ∷ [];
    authorization_token = none;
  }
  evaluate_agent engine d p org ledger (some a) = decide engine d p org (
      check_rules p a org ledger (map (λ (r : PolicyRule). r.rule_id) engine.rules) engine.rules [])

  unfoldable pub evaluate :
      PolicyEngine
      → Draw
      → ActionProposal
      → Organisation
      → Option DoubleEntryLedger
      → PolicyDecision
  evaluate engine d p org ledger =
      evaluate_agent engine d p org ledger (lookup p.proposing_agent_id org.agents)
