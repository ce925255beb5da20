-- ===== src/Orbio/Verifier.antt =====
-- `OrbioPurchaseVerifier` (src/settlement/orbio_purchase_verifier.py): evidence against the authorized
-- intent. The state is the dict of references by intent hash. Evidence is as its record holds it, with a
-- `chain_id` that is an int and without `raw`; the texts of the reasons, ids and times of a report are left out.
use kalyx_mao_engine.Base.{
  String, Bool, true, false, not, Option, none, some, List, ◌&&◌, ◌||◌, any, str_eq, is_empty,
  if◌then◌else◌,
}
use kalyx_mao_engine.Base.Int.{ℤ, pos, ltb_ℤ, eqb_ℤ}
use kalyx_mao_engine.Base.Dict.{Dict, lookup, insert}
use kalyx_mao_engine.Orbio.Text.{lower}
use kalyx_mao_engine.Orbio.Intents.{
  OrbioPurchaseIntent, Digests, beneficiary_as_bytes32, compute_purchase_intent_hash,
}

pub data PurchaseVerificationResult : Type 0 where
  verified rejected pending_evidence : PurchaseVerificationResult

pub data PurchaseVerificationCode : Type 0 where
  fine missing_evidence provider_not_success wrong_intent_hash : PurchaseVerificationCode
  wrong_exchange wrong_chain wrong_network wrong_beneficiary : PurchaseVerificationCode
  wrong_usdg_amount credit_below_minimum missing_activation malformed_evidence
        evidence_hash_mismatch :
      PurchaseVerificationCode
  cross_tenant cross_org wrong_provider_reference already_verified : PurchaseVerificationCode

-- An event of the receipt, by the two keys that are read.
pub record ReceiptEvent : Type 0 where
  pub name : Option String
  pub activation_id : Option String

pub record OrbioPurchaseEvidence : Type 0 where
  pub purchase_intent_hash : String
  pub provider_reference : String
  pub chain_id : Option ℤ
  pub network : Option String
  pub exchange_contract : String
  pub usdg_spent : ℤ
  pub credit_out : ℤ
  pub min_credit_out : ℤ
  pub beneficiary : String
  pub activation_id : String
  pub tenant_id : Option String
  pub organisation_id : Option String
  pub evidence_hash : Option String
  pub provider_name : Option String
  pub events : List ReceiptEvent

pub record PurchaseVerificationReport : Type 0 where
  pub result : PurchaseVerificationResult
  pub code : PurchaseVerificationCode
  pub intent_hash : String
  pub provider_reference : Option String

abbrev pub is_blank : Option String → Bool
is_blank none = true
is_blank (some s) = is_empty s

abbrev pub is_unknown_chain : Option ℤ → Bool
is_unknown_chain none = true
is_unknown_chain (some n) = false

-- A field that is present and differs.
abbrev pub is_other : Option String → String → Bool
is_other none expected = false
is_other (some s) expected = not (str_eq s expected)

abbrev pub is_other_chain : Option ℤ → ℤ → Bool
is_other_chain none expected = false
is_other_chain (some n) expected = not (eqb_ℤ n expected)

abbrev pub lower_option : Option String → Option String
lower_option none = none
lower_option (some s) = some (lower s)

abbrev pub holds : Option String → String → Bool
holds none s = false
holds (some t) s = str_eq t s

abbrev pub is_activation : ReceiptEvent → Bool
is_activation e = holds e.name "Activated" && not (is_blank e.activation_id)

abbrev pub is_activated : OrbioPurchaseEvidence → Bool
is_activated e = not (is_empty e.activation_id) || any is_activation e.events

abbrev pub lacks_evidence : OrbioPurchaseEvidence → Bool
lacks_evidence e =
    is_empty e.exchange_contract
    || is_unknown_chain e.chain_id
    || is_blank e.network
    || is_empty e.beneficiary
    || is_empty e.provider_reference
    || is_empty e.purchase_intent_hash

-- `expected_provider_reference and evidence.provider_reference != …`
abbrev pub is_unexpected : Option String → String → Bool
is_unexpected none reference = false
is_unexpected (some expected) reference = not (is_empty expected) && not (str_eq reference expected)

module _ (lib : Digests) (i : OrbioPurchaseIntent) where
  abbrev pub is_beneficiary : OrbioPurchaseEvidence → Bool
  is_beneficiary e =
      str_eq (lower e.beneficiary) (lower (beneficiary_as_bytes32 i))
      || str_eq (lower e.beneficiary) (lower i.beneficiary)

  -- The checks of the evidence, in their order.
  unfoldable pub evidence_code :
      OrbioPurchaseEvidence → Option String → Option PurchaseVerificationCode
  evidence_code e expected =
      if lacks_evidence e
      then some missing_evidence
      else if not (str_eq e.purchase_intent_hash (compute_purchase_intent_hash lib i))
      then some wrong_intent_hash
      else if is_other e.tenant_id i.tenant_id
      then some cross_tenant
      else if is_other e.organisation_id i.organisation_id
      then some cross_org
      else if not (str_eq (lower e.exchange_contract) (lower i.exchange_contract))
      then some wrong_exchange
      else if is_other_chain e.chain_id i.chain_id
      then some wrong_chain
      else if is_other (lower_option e.network) (lower i.network)
      then some wrong_network
      else if not (eqb_ℤ e.usdg_spent (pos i.usdg_in))
      then some wrong_usdg_amount
      else if ltb_ℤ e.credit_out (pos i.min_credit_out)
      then some credit_below_minimum
      else if not (is_beneficiary e)
      then some wrong_beneficiary
      else if not (is_activated e)
      then some missing_activation
      else if is_unexpected expected e.provider_reference
      then some wrong_provider_reference
      else none

  abbrev pub report :
      PurchaseVerificationResult
      → PurchaseVerificationCode
      → Option String
      → PurchaseVerificationReport
  report result code reference = record {
    result = result;
    code = code;
    intent_hash = compute_purchase_intent_hash lib i;
    provider_reference = reference;
  }

  -- The evidence has passed the checks: the reference is recorded, or compared with the one recorded.
  abbrev pub settle_reference :
      Option String → String → Dict String → PurchaseVerificationReport × Dict String
  settle_reference none reference known = (
    report verified fine (some reference),
    insert (compute_purchase_intent_hash lib i) reference known,
  )
  settle_reference (some prior) reference known =
      if str_eq prior reference
      then (report verified already_verified (some reference), known)
      else (report rejected wrong_provider_reference (some reference), known)

  abbrev pub conclude :
      Option PurchaseVerificationCode
      → OrbioPurchaseEvidence
      → Dict String
      → PurchaseVerificationReport × Dict String
  conclude (some code) e known = (report rejected code (some e.provider_reference), known)
  conclude none e known =
      settle_reference (lookup (compute_purchase_intent_hash lib i) known) e.provider_reference
        known

  abbrev pub is_unsettled : String → Bool
  is_unsettled outcome = str_eq outcome "TIMEOUT" || str_eq outcome "UNKNOWN"

  abbrev pub reference_or_none : String → Option String
  reference_or_none s = if is_empty s then none else some s

  abbrev pub verify_success :
      OrbioPurchaseEvidence → Option String → Dict String → PurchaseVerificationReport × Dict String
  verify_success e expected known = conclude (evidence_code e expected) e known

  -- There is evidence; an outcome other than SUCCESS does not get as far as the checks.
  abbrev pub verify_outcome :
      Option String
      → OrbioPurchaseEvidence
      → Option String
      → Dict String
      → PurchaseVerificationReport × Dict String
  verify_outcome none e expected known = verify_success e expected known
  verify_outcome (some outcome) e expected known =
      if str_eq outcome "SUCCESS"
      then verify_success e expected known
      else if is_unsettled outcome
      then (
        report pending_evidence provider_not_success (reference_or_none e.provider_reference),
        known,
      )
      else (report rejected provider_not_success (some e.provider_reference), known)

  abbrev pub verify_absent : Option String → PurchaseVerificationReport
  verify_absent none = report pending_evidence missing_evidence none
  verify_absent (some outcome) =
      if is_unsettled outcome
      then report pending_evidence missing_evidence none
      else report rejected missing_evidence none

  abbrev pub verify_given :
      Option OrbioPurchaseEvidence
      → Option String
      → Option String
      → Dict String
      → PurchaseVerificationReport × Dict String
  verify_given none outcome expected known = (verify_absent outcome, known)
  verify_given (some e) outcome expected known = verify_outcome outcome e expected known

  unfoldable pub verify :
      Option OrbioPurchaseEvidence
      → Option String
      → Option String
      → Dict String
      → PurchaseVerificationReport × Dict String
  verify evidence outcome expected known = verify_given evidence outcome expected known

abbrev pub is_known : Option String → Bool
is_known none = false
is_known (some s) = true

unfoldable pub was_verified : String → Dict String → Bool
was_verified hash known = is_known (lookup hash known)
