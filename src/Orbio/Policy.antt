-- ===== src/Orbio/Policy.antt =====
-- `OrbioPurchasePolicy` (src/governance/orbio_purchase_rules.py): human approvals and `evaluate`. Times
-- are numbers. The texts of the reasons and the fingerprint `policy_version`, which a decision only
-- carries, are left out.
use kalyx_mao_engine.Base.{
  ℕ, ◌+◌, String, Bool, true, false, not, Option, none, some, List, [], ◌∷◌, ◌&&◌, ◌||◌, contains,
  str_append, str_eq, is_empty, ltb, if◌then◌else◌,
}
use kalyx_mao_engine.Base.Dict.{Dict, lookup, insert, remove}
use kalyx_mao_engine.Base.Outcome.{Result, ok, raise_if, ◌>>◌, value_error}
use kalyx_mao_engine.Orbio.Intents.{OrbioPurchaseIntent, Digests, compute_purchase_intent_hash}
use kalyx_mao_engine.Orbio.Bounds.{
  Limits, PurchaseDenialCode, missing_human_approval, human_approval_intent_mismatch,
  human_approval_expired, human_approval_tenant_mismatch, unauthorized_human_approval,
  human_approval_revoked, bound_denial,
}

pub data PurchaseDecisionResult : Type 0 where
  allow deny human_confirmation_required : PurchaseDecisionResult

pub record HumanPurchaseApproval : Type 0 where
  pub approval_id : String
  pub intent_hash : String
  pub tenant_id : String
  pub organisation_id : String
  pub operator_id : String
  pub issued_at : ℕ
  pub expires_at : ℕ
  pub notes : Option String
  pub issuance_token : Option String

-- The approvals: the latest of each intent hash, those issued by id, and the ids that are revoked.
pub record Approvals : Type 0 where
  pub latest : Dict HumanPurchaseApproval
  pub issued : Dict HumanPurchaseApproval
  pub revoked : List String

pub record PurchasePolicyDecision : Type 0 where
  pub result : PurchaseDecisionResult
  pub intent_hash : String
  pub denial_codes : List PurchaseDenialCode
  pub requires_human_confirmation : Bool

-- The test of the constructor, and the approvals of a new policy.
unfoldable pub init : Limits → Result Approvals
init p = do
  raise_if (ltb p.absolute_usdg_ceiling p.autonomous_usdg_ceiling) value_error
  ok (record { latest = []; issued = []; revoked = [] })

abbrev pub or_latest :
    Option HumanPurchaseApproval → Option HumanPurchaseApproval → Option HumanPurchaseApproval
or_latest none stored = stored
or_latest (some a) stored = some a

abbrev pub is_issued : Option HumanPurchaseApproval → Bool
is_issued none = false
is_issued (some a) = true

unfoldable pub record_approval : HumanPurchaseApproval → Approvals → Approvals
record_approval a s = record s {
  latest = insert a.intent_hash a s.latest;
  issued = insert a.approval_id a s.issued;
}

abbrev pub is_token : Option String → String → Bool
is_token none expected = false
is_token (some t) expected = not (is_empty t) && str_eq t expected

module _ (lib : Digests) (p : Limits) where
  unfoldable pub compute_issuance_token : HumanPurchaseApproval → String
  compute_issuance_token a = lib.hmac_sha256 p.secret (
      str_append a.approval_id (
        str_append ":" (
          str_append a.intent_hash (
            str_append ":" (
              str_append a.tenant_id (
                str_append ":" (
                  str_append a.organisation_id (
                    str_append ":" (
                      str_append a.operator_id (
                        str_append ":" (
                          str_append (lib.time_text a.issued_at)
                            (str_append ":" (lib.time_text a.expires_at)))))))))))))

  abbrev ttl_or : Option ℕ → ℕ
  ttl_or none = p.human_approval_ttl_seconds
  ttl_or (some ttl) = ttl

  -- `uuid` is the id that is drawn.
  unfoldable pub approval_for :
      String → OrbioPurchaseIntent → String → Option String → Option ℕ → ℕ → HumanPurchaseApproval
  approval_for uuid i operator notes ttl now =
      let unsigned : HumanPurchaseApproval = record {
        approval_id = uuid;
        intent_hash = compute_purchase_intent_hash lib i;
        tenant_id = i.tenant_id;
        organisation_id = i.organisation_id;
        operator_id = operator;
        issued_at = now;
        expires_at = now + ttl_or ttl;
        notes = notes;
        issuance_token = none;
      } in
      record unsigned { issuance_token = some (compute_issuance_token unsigned) }

  unfoldable pub issue_human_approval :
      String
      → OrbioPurchaseIntent
      → String
      → Option String
      → Option ℕ
      → ℕ
      → Approvals
      → HumanPurchaseApproval × Approvals
  issue_human_approval uuid i operator notes ttl now s =
      let a = approval_for uuid i operator notes ttl now in (a, record_approval a s)

  -- The denial code of `is_valid_for`, or none where it is valid.
  abbrev pub is_valid_for :
      OrbioPurchaseIntent → ℕ → HumanPurchaseApproval → Option PurchaseDenialCode
  is_valid_for i now a =
      if ltb a.expires_at now
      then some human_approval_expired
      else if not (str_eq a.intent_hash (compute_purchase_intent_hash lib i))
      then some human_approval_intent_mismatch
      else if not (str_eq a.tenant_id i.tenant_id)
          || not (str_eq a.organisation_id i.organisation_id)
      then some human_approval_tenant_mismatch
      else none

  -- Why a human approval is refused for the intent.
  unfoldable pub approval_denial :
      Approvals → OrbioPurchaseIntent → ℕ → HumanPurchaseApproval → Option PurchaseDenialCode
  approval_denial s i now a =
      if contains a.approval_id s.revoked
      then some human_approval_revoked
      else if not (is_token a.issuance_token (compute_issuance_token a))
      then some unauthorized_human_approval
      else if not (is_issued (lookup a.approval_id s.issued))
      then some unauthorized_human_approval
      else is_valid_for i now a

  abbrev pub decide : OrbioPurchaseIntent → Option PurchaseDenialCode → PurchasePolicyDecision
  decide i none = record {
    result = allow;
    intent_hash = compute_purchase_intent_hash lib i;
    denial_codes = [];
    requires_human_confirmation = false;
  }
  decide i (some code) = record {
    result = deny;
    intent_hash = compute_purchase_intent_hash lib i;
    denial_codes = code ∷ [];
    requires_human_confirmation = false;
  }

  -- Above the autonomous ceiling.
  abbrev pub confirm :
      Approvals → OrbioPurchaseIntent → ℕ → Option HumanPurchaseApproval → PurchasePolicyDecision
  confirm s i now none = record {
    result = human_confirmation_required;
    intent_hash = compute_purchase_intent_hash lib i;
    denial_codes = missing_human_approval ∷ [];
    requires_human_confirmation = true;
  }
  confirm s i now (some a) = decide i (approval_denial s i now a)

  abbrev pub judge :
      Approvals
      → OrbioPurchaseIntent
      → Option HumanPurchaseApproval
      → ℕ
      → Option PurchaseDenialCode
      → PurchasePolicyDecision
  judge s i given now (some code) = decide i (some code)
  judge s i given now none =
      if ltb p.autonomous_usdg_ceiling i.usdg_in
      then confirm s i now (or_latest given (lookup (compute_purchase_intent_hash lib i) s.latest))
      else decide i none

  unfoldable pub evaluate :
      Approvals → OrbioPurchaseIntent → Option HumanPurchaseApproval → ℕ → PurchasePolicyDecision
  evaluate s i given now = judge s i given now (bound_denial p i now)

-- The first branch of `revoke_human_approval`: the argument is an intent hash with an approval.
abbrev pub revoke_latest : Option HumanPurchaseApproval → String → Approvals → Approvals
revoke_latest none key s = s
revoke_latest (some a) key s = record {
  latest = remove key s.latest;
  issued = remove a.approval_id s.issued;
  revoked = a.approval_id ∷ s.revoked;
}

-- The second: it is the id of an approval.
abbrev pub revoke_issued : Option HumanPurchaseApproval → String → Approvals → Approvals
revoke_issued none key s = s
revoke_issued (some a) key s = record {
  latest = remove a.intent_hash s.latest;
  issued = remove key s.issued;
  revoked = a.approval_id ∷ s.revoked;
}

abbrev pub revoke_unknown : Bool → String → Approvals → Approvals
revoke_unknown true key s = s
revoke_unknown false key s = record s { revoked = key ∷ s.revoked }

-- It always returns True.
unfoldable pub revoke_human_approval : String → Approvals → Approvals
revoke_human_approval key s =
    let s1 = revoke_latest (lookup key s.latest) key s in
    let s2 = revoke_issued (lookup key s1.issued) key s1 in
    revoke_unknown (is_issued (lookup key s.latest) || is_issued (lookup key s1.issued)) key s2

unfoldable pub get_human_approval : String → Approvals → Option HumanPurchaseApproval
get_human_approval hash s = lookup hash s.latest
