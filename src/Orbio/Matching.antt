-- ===== src/Orbio/Matching.antt =====
-- Evidence that passes the checks matches the intent.
use kalyx_mao_engine.Base.{
  ◌⊎◌, any, List, [], ◌∷◌, is_empty, String, true, false, ◌≡◌, ap, Option, none, some, inl, inr,
  arith, str_eq, eq_iff, Bool-cases,
}
use kalyx_mao_engine.Base.Int.{ℤ, pos, ◌≤ℤ◌, eqb_ℤ→eq}
use kalyx_mao_engine.Orbio.Text.{lower}
use kalyx_mao_engine.Orbio.Intents.{
  beneficiary_as_bytes32, OrbioPurchaseIntent, Digests, compute_purchase_intent_hash,
}
use kalyx_mao_engine.Orbio.Verifier.{
  OrbioPurchaseEvidence, is_other, is_other_chain, is_unknown_chain, lower_option, is_activated,
  is_activation, is_blank, holds, ReceiptEvent, lacks_evidence, is_unexpected, is_beneficiary,
  evidence_code,
}

abbrev pub IsOrAbsent : Option String → String → Type 0
IsOrAbsent none expected = Unit {0}
IsOrAbsent (some s) expected = s ≡ expected

is_other-IsOrAbsent :
    (given : Option String) (expected : String)
    → is_other given expected ≡ false
    → IsOrAbsent given expected
is_other-IsOrAbsent none expected h = tt
is_other-IsOrAbsent (some s) expected h = ground (arith, h, eq_iff s expected)

same_chain :
    (given : Option ℤ) (expected : ℤ)
    → is_unknown_chain given ≡ false
    → is_other_chain given expected ≡ false
    → given ≡ some expected
same_chain none expected known h = cc
same_chain (some n) expected known h = ground (arith, h, eqb_ℤ→eq n expected)

-- The texts that must be there are not empty.
pub record IsComplete (e : OrbioPurchaseEvidence) : Type 0 where
  pub exchange_contract : is_empty e.exchange_contract ≡ false
  pub network : is_blank e.network ≡ false
  pub beneficiary : is_empty e.beneficiary ≡ false
  pub provider_reference : is_empty e.provider_reference ≡ false
  pub purchase_intent_hash : is_empty e.purchase_intent_hash ≡ false

-- An event `Activated` with an activation id.
pub record IsActivation (x : ReceiptEvent) : Type 0 where
  pub named : x.name ≡ some "Activated"
  pub identified : is_blank x.activation_id ≡ false

abbrev pub SomeActivation : List ReceiptEvent → Type 0
SomeActivation [] = ⊥
SomeActivation (x ∷ xs) = IsActivation x ⊎ SomeActivation xs

holds-eq : (t : Option String) (s : String) → holds t s ≡ true → t ≡ some s
holds-eq none s h = cc
holds-eq (some t) s h = let same : t ≡ s = ground (arith, h, eq_iff t s) in ap some same

is_activation-IsActivation : (x : ReceiptEvent) → is_activation x ≡ true → IsActivation x
is_activation-IsActivation x h = record {
  named = holds-eq x.name "Activated" (ground (arith, h));
  identified = ground (arith, h);
}

any-SomeActivation : (xs : List ReceiptEvent) → any is_activation xs ≡ true → SomeActivation xs
any-SomeActivation [] h = cc
any-SomeActivation (x ∷ xs) h = elim (Bool-cases (is_activation x)) [
  | inl here ↦ inl (is_activation-IsActivation x here)
  | inr other ↦ inr (any-SomeActivation xs (rw other at h))
]

is_activated-cases :
    (e : OrbioPurchaseEvidence)
    → is_activated e ≡ true
    → (is_empty e.activation_id ≡ false) ⊎ SomeActivation e.events
is_activated-cases e h = elim (Bool-cases (is_empty e.activation_id)) [
  | inr given ↦ inl given
  | inl missing ↦ inr (any-SomeActivation e.events (rw missing at h))
]

module _ (lib : Digests) (i : OrbioPurchaseIntent) where
  is_beneficiary-cases :
      (e : OrbioPurchaseEvidence)
      → is_beneficiary lib i e ≡ true
      → (lower e.beneficiary ≡ lower (beneficiary_as_bytes32 i))
        ⊎ (lower e.beneficiary ≡ lower i.beneficiary)
  is_beneficiary-cases e h =
      elim (Bool-cases (str_eq (lower e.beneficiary) (lower (beneficiary_as_bytes32 i)))) [
        | inl encoded ↦ inl (
            ground
              (arith, encoded, eq_iff (lower e.beneficiary) (lower (beneficiary_as_bytes32 i))))
        | inr other ↦
            inr (ground (arith, other, h, eq_iff (lower e.beneficiary) (lower i.beneficiary)))
      ]

  -- Evidence that a purchase ran as the intent says: this hash, tenant, exchange, chain, network and
  -- amount, at least the least output, to the beneficiary, and activated.
  pub record Matches (e : OrbioPurchaseEvidence) (expected : Option String) : Type 0 where
    pub complete : IsComplete e
    pub same_intent : e.purchase_intent_hash ≡ compute_purchase_intent_hash lib i
    pub tenant : IsOrAbsent e.tenant_id i.tenant_id
    pub org : IsOrAbsent e.organisation_id i.organisation_id
    pub exchange : lower e.exchange_contract ≡ lower i.exchange_contract
    pub chain : e.chain_id ≡ some i.chain_id
    pub network : IsOrAbsent (lower_option e.network) (lower i.network)
    pub spent : e.usdg_spent ≡ pos i.usdg_in
    pub credit : pos i.min_credit_out ≤ℤ e.credit_out
    pub beneficiary :
        (lower e.beneficiary ≡ lower (beneficiary_as_bytes32 i))
        ⊎ (lower e.beneficiary ≡ lower i.beneficiary)
    pub activated : (is_empty e.activation_id ≡ false) ⊎ SomeActivation e.events
    pub as_expected : is_unexpected expected e.provider_reference ≡ false

  pub evidence_code-Matches :
      (e : OrbioPurchaseEvidence) (expected : Option String)
      → evidence_code lib i e expected ≡ none
      → Matches e expected
  unfolding evidence_code
  evidence_code-Matches e expected h =
      let complete : lacks_evidence e ≡ false = ground (arith, h) in
      let known : is_unknown_chain e.chain_id ≡ false = ground (arith, complete) in
      let tenant : is_other e.tenant_id i.tenant_id ≡ false = ground (arith, h) in
      let org : is_other e.organisation_id i.organisation_id ≡ false = ground (arith, h) in
      let chain : is_other_chain e.chain_id i.chain_id ≡ false = ground (arith, h) in
      let network : is_other (lower_option e.network) (lower i.network) ≡ false =
        ground (arith, h) in
      record {
        complete = record {
          exchange_contract = ground (arith, complete);
          network = ground (arith, complete);
          beneficiary = ground (arith, complete);
          provider_reference = ground (arith, complete);
          purchase_intent_hash = ground (arith, complete);
        };
        same_intent =
            ground (arith, h, eq_iff e.purchase_intent_hash (compute_purchase_intent_hash lib i));
        tenant = is_other-IsOrAbsent e.tenant_id i.tenant_id tenant;
        org = is_other-IsOrAbsent e.organisation_id i.organisation_id org;
        exchange =
            ground (arith, h, eq_iff (lower e.exchange_contract) (lower i.exchange_contract));
        chain = same_chain e.chain_id i.chain_id known chain;
        network = is_other-IsOrAbsent (lower_option e.network) (lower i.network) network;
        spent = ground (arith, h, eqb_ℤ→eq e.usdg_spent (pos i.usdg_in));
        credit = ground (arith, h);
        beneficiary = is_beneficiary-cases e (ground (arith, h));
        activated = is_activated-cases e (ground (arith, h));
        as_expected = ground (arith, h);
      }
