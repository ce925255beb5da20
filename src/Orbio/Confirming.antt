-- ===== src/Orbio/Confirming.antt =====
-- That a purchase is allowed once an operator has approved it.
use kalyx_mao_engine.Base.{
  ℕ, ◌≤◌, String, false, true, ◌≡◌, refl, ◌∙◌, Option, none, some, contains, eq_refl, is_empty,
}
use kalyx_mao_engine.Base.Dict.{lookup, lookup-insert}
use kalyx_mao_engine.Orbio.Intents.{OrbioPurchaseIntent, Digests, compute_purchase_intent_hash}
use kalyx_mao_engine.Orbio.Bounds.{Limits}
use kalyx_mao_engine.Orbio.Policy.{
  Approvals, HumanPurchaseApproval, allow, is_issued, compute_issuance_token, approval_for,
  record_approval, issue_human_approval, evaluate,
}
use kalyx_mao_engine.Orbio.Allowed.{WithinBounds, Confirms, evaluate-Authorised}

module _ (lib : Digests) (p : Limits) (s : Approvals) (i : OrbioPurchaseIntent)
    (uuid operator : String) (notes : Option String) (ttl : Option ℕ) (now later : ℕ) where
  abbrev approval : HumanPurchaseApproval
  approval = (issue_human_approval lib p uuid i operator notes ttl now s).0

  abbrev after : Approvals
  after = (issue_human_approval lib p uuid i operator notes ttl now s).1

  latest_after : lookup (compute_purchase_intent_hash lib i) after.latest ≡ some approval
  unfolding issue_human_approval record_approval approval_for
  latest_after =
      lookup-insert (compute_purchase_intent_hash lib i) (compute_purchase_intent_hash lib i)
        approval s.latest
      ∙ simp (eq_refl (compute_purchase_intent_hash lib i))

  registered_after : is_issued (lookup approval.approval_id after.issued) ≡ true
  unfolding issue_human_approval record_approval approval_for
  registered_after = rw (lookup-insert uuid uuid approval s.issued) (simp (eq_refl uuid))

  approval-Confirms :
      contains uuid s.revoked ≡ false
      → is_empty (compute_issuance_token lib p approval) ≡ false
      → later ≤ approval.expires_at
      → Confirms lib p after i later approval
  unfolding issue_human_approval record_approval approval_for compute_issuance_token
  approval-Confirms fresh full time = record {
    not_revoked = fresh;
    signed = refl;
    not_blank = full;
    registered = registered_after;
    unexpired = time;
    same_intent = refl;
    same_tenant = refl;
    same_org = refl;
  }

  -- Where the id that is drawn is not a revoked one and the HMAC is not empty text: once
  -- `issue_human_approval` has returned, `evaluate` allows the intent, if it is within the bounds,
  -- until the approval expires, whether or not the approval is handed over again.
  pub evaluate-issue_human_approval :
      contains uuid s.revoked ≡ false
      → is_empty (compute_issuance_token lib p approval) ≡ false
      → later ≤ approval.expires_at
      → WithinBounds p i later
      → ((evaluate lib p after i none later).result ≡ allow)
        × ((evaluate lib p after i (some approval) later).result ≡ allow)
  evaluate-issue_human_approval fresh full time within =
      let confirms = approval-Confirms fresh full time in
      (
        (evaluate-Authorised lib p after i later none).1
            (record { within = within; confirmed = λ above. (approval, latest_after, confirms) }),
        (evaluate-Authorised lib p after i later (some approval)).1
            (record { within = within; confirmed = λ above. (approval, refl, confirms) }),
      )
