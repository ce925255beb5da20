-- ===== src/Orbio/Tests.antt =====
-- The policy and the verifier at concrete inputs.
use kalyx_mao_engine.Base.{String, ◌≡◌, ◌≢◌, refl, none, some, List, [], ◌∷◌, arith}
use kalyx_mao_engine.Base.Dict.{lookup, insert}
use kalyx_mao_engine.Base.Outcome.{ok}
use kalyx_mao_engine.Orbio.Text.{lower, is_hex, drop_chars, is_hex_text, zeros, zfill}
use kalyx_mao_engine.Orbio.Intents.{
  compute_purchase_intent_hash, beneficiary_as_bytes32, address_to_beneficiary_bytes32,
}
use kalyx_mao_engine.Orbio.Bounds.{is_deployed, is_beneficiary_allowed, to_tuple, bound_denial}
use kalyx_mao_engine.Orbio.Policy.{
  HumanPurchaseApproval, allow, human_confirmation_required, init as init_policy,
  issue_human_approval, approval_for, record_approval, compute_issuance_token, evaluate,
  revoke_human_approval,
}
use kalyx_mao_engine.Orbio.Allowed.{WithinBounds}
use kalyx_mao_engine.Orbio.Confirming.{evaluate-issue_human_approval}
use kalyx_mao_engine.Orbio.Revocation.{
  ApprovalCall, issuing, no_approvals, run_calls, revoked_for_good,
}
use kalyx_mao_engine.Orbio.EarlierApproval.{Apart, earlier_approval_stays}
use kalyx_mao_engine.Orbio.Verifier.{OrbioPurchaseEvidence, verified, verify, evidence_code}
use kalyx_mao_engine.Orbio.Matching.{Matches}
use kalyx_mao_engine.Orbio.Verified.{verify-Matches}
use kalyx_mao_engine.Orbio.OneReference.{VerifyCall, references, Uniform, references-Uniform}
use kalyx_mao_engine.Orbio.Samples.{lib, limits, intent, evidence}

within : WithinBounds limits intent 20
unfolding is_deployed to_tuple is_beneficiary_allowed lower is_hex is_hex_text drop_chars
within = record {
  deployed = refl;
  beneficiary = refl;
  spend = omega arith;
  at_most_face = omega arith;
  bounded_slippage = λ h. omega arith;
  fills = omega arith;
  fee = omega arith;
  priority_fee = omega arith;
  gas = omega arith;
  in_time = omega arith;
}

new_policy : init_policy limits ≡ ok no_approvals
unfolding init_policy
new_policy = refl

unconfirmed : (evaluate lib limits no_approvals intent none 20).result ≡ human_confirmation_required
unfolding evaluate bound_denial is_deployed to_tuple is_beneficiary_allowed lower is_hex is_hex_text
    drop_chars compute_purchase_intent_hash lookup
unconfirmed = refl

evaluate-issue_human_approval_example :
    ((evaluate lib limits
        (issue_human_approval lib limits "a1" intent "operator" none none 5 no_approvals).1
        intent
        none
        20).result
      ≡ allow)
    × ((evaluate lib limits
          (issue_human_approval lib limits "a1" intent "operator" none none 5 no_approvals).1
          intent
          (some (issue_human_approval lib limits "a1" intent "operator" none none 5 no_approvals).0)
          20).result
        ≡ allow)
unfolding issue_human_approval approval_for compute_issuance_token compute_purchase_intent_hash
evaluate-issue_human_approval_example =
    evaluate-issue_human_approval lib limits no_approvals intent "a1" "operator" none none 5 20 refl
      refl (omega arith) within

abbrev approval : String → HumanPurchaseApproval
approval id = approval_for lib limits id intent "operator" none none 5

abbrev issued : String → ApprovalCall
issued id = issuing id intent "operator" none none 5

revoked_for_good_example :
    (evaluate lib limits
      (run_calls lib limits
        (issued "a1" ∷ [])
        (revoke_human_approval "a1" (run_calls lib limits (issued "a1" ∷ []) no_approvals)))
      intent
      (some (approval "a1"))
      20).result
    ≢ allow
unfolding run_calls issue_human_approval record_approval approval_for compute_purchase_intent_hash
    lookup insert
revoked_for_good_example =
    revoked_for_good lib limits (issued "a1" ∷ []) (issued "a1" ∷ []) (approval "a1") intent 20 refl
      (omega arith)

apart : Apart lib limits no_approvals intent "a1" "a2" "operator" none 5 20
unfolding compute_purchase_intent_hash lookup
apart = record {
  two_ids = refl;
  first_apart = refl;
  second_apart = refl;
  no_id = refl;
  fresh = refl;
}

earlier_approval_stays_example :
    (evaluate lib limits
      (revoke_human_approval
        (compute_purchase_intent_hash lib intent)
        (issue_human_approval lib limits "a2" intent "operator" none none 5
          (issue_human_approval lib limits "a1" intent "operator" none none 5 no_approvals).1).1)
      intent
      (some (issue_human_approval lib limits "a1" intent "operator" none none 5 no_approvals).0)
      20).result
    ≡ allow
unfolding issue_human_approval approval_for compute_issuance_token compute_purchase_intent_hash
earlier_approval_stays_example =
    earlier_approval_stays lib limits no_approvals intent "a1" "a2" "operator" none 5 20 apart refl
      (omega arith) within

is_accepted : (verify lib intent (some evidence) (some "SUCCESS") none []).0.result ≡ verified
unfolding verify evidence_code lower compute_purchase_intent_hash beneficiary_as_bytes32 is_hex
    is_hex_text drop_chars address_to_beneficiary_bytes32 zeros zfill lookup
is_accepted = refl

verify-Matches_example :
    (e : OrbioPurchaseEvidence) × (some evidence ≡ some e)
    × Matches lib intent e none
    × ((verify lib intent (some evidence) (some "SUCCESS") none []).0.provider_reference
        ≡ some e.provider_reference)
verify-Matches_example =
    verify-Matches lib intent (some evidence) (some "SUCCESS") none [] is_accepted

abbrev calls : List VerifyCall
calls =
    record { intent = intent; evidence = some evidence; outcome = some "SUCCESS"; expected = none }
    ∷ record {
      intent = intent;
      evidence = some (record evidence { provider_reference = "0xother" });
      outcome = some "SUCCESS";
      expected = none;
    }
    ∷ []

one_reference : references lib "intent" calls [] ≡ some "0xtx" ∷ []
unfolding references verify evidence_code lower compute_purchase_intent_hash beneficiary_as_bytes32
    is_hex is_hex_text drop_chars address_to_beneficiary_bytes32 zeros zfill lookup insert
one_reference = refl

references-Uniform_example : Uniform (references lib "intent" calls [])
references-Uniform_example = references-Uniform lib "intent" calls []
