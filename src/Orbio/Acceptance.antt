-- ===== src/Orbio/Acceptance.antt =====
-- Evidence that matches the intent is accepted.
use kalyx_mao_engine.Base.{
  List, [], ◌∷◌, ◌⊎◌, inl, inr, any, is_empty, String, true, false, ◌≡◌, refl, Option, none, some,
  arith, str_eq, eq_refl,
}
use kalyx_mao_engine.Base.Int.{ℤ, pos, ltb_ℤ, eqb_ℤ, eqb_ℤ-refl}
use kalyx_mao_engine.Base.Dict.{Dict, lookup}
use kalyx_mao_engine.Orbio.Text.{lower}
use kalyx_mao_engine.Orbio.Intents.{
  beneficiary_as_bytes32, OrbioPurchaseIntent, Digests, compute_purchase_intent_hash,
}
use kalyx_mao_engine.Orbio.Verifier.{
  OrbioPurchaseEvidence, ReceiptEvent, is_activation, is_activated, holds, lacks_evidence,
  is_beneficiary, verified, is_other, is_other_chain, evidence_code, settle_reference, verify,
}
use kalyx_mao_engine.Orbio.Matching.{IsComplete, IsActivation, SomeActivation, IsOrAbsent, Matches}

IsOrAbsent-is_other :
    (given : Option String) (expected : String)
    → IsOrAbsent given expected
    → is_other given expected ≡ false
IsOrAbsent-is_other none expected h = refl
IsOrAbsent-is_other (some s) expected h = rw h (simp (eq_refl expected))

IsActivation-is_activation : (x : ReceiptEvent) → IsActivation x → is_activation x ≡ true
IsActivation-is_activation x a =
    let named : holds x.name "Activated" ≡ true = rw a.named refl in simp (named, a.identified)

SomeActivation-any : (xs : List ReceiptEvent) → SomeActivation xs → any is_activation xs ≡ true
SomeActivation-any [] none_left = absurd none_left
SomeActivation-any (x ∷ xs) (inl here) = simp (IsActivation-is_activation x here)
SomeActivation-any (x ∷ xs) (inr later) = ground (arith, SomeActivation-any xs later)

activated-is_activated :
    (e : OrbioPurchaseEvidence)
    → (is_empty e.activation_id ≡ false) ⊎ SomeActivation e.events
    → is_activated e ≡ true
activated-is_activated e (inl given) = simp given
activated-is_activated e (inr some_event) = ground (arith, SomeActivation-any e.events some_event)

IsComplete-lacks_evidence :
    (e : OrbioPurchaseEvidence) (chain : ℤ)
    → IsComplete e
    → e.chain_id ≡ some chain
    → lacks_evidence e ≡ false
IsComplete-lacks_evidence e chain c known = simp (
  c.exchange_contract, known, c.network, c.beneficiary, c.provider_reference,
  c.purchase_intent_hash,
)

module _ (lib : Digests) (i : OrbioPurchaseIntent) where
  beneficiary-is_beneficiary :
      (e : OrbioPurchaseEvidence)
      → (lower e.beneficiary ≡ lower (beneficiary_as_bytes32 i))
        ⊎ (lower e.beneficiary ≡ lower i.beneficiary)
      → is_beneficiary lib i e ≡ true
  beneficiary-is_beneficiary e (inl encoded) =
      simp (encoded, eq_refl (lower (beneficiary_as_bytes32 i)))
  beneficiary-is_beneficiary e (inr plain) =
      let same : str_eq (lower e.beneficiary) (lower i.beneficiary) ≡ true =
        rw plain (eq_refl (lower i.beneficiary)) in
      ground (arith, same)

  Matches-evidence_code :
      (e : OrbioPurchaseEvidence) (expected : Option String)
      → Matches lib i e expected
      → evidence_code lib i e expected ≡ none
  unfolding evidence_code
  Matches-evidence_code e expected m =
      let tenant = IsOrAbsent-is_other _ _ m.tenant in
      let org = IsOrAbsent-is_other _ _ m.org in
      let network = IsOrAbsent-is_other _ _ m.network in
      let hash = compute_purchase_intent_hash lib i in
      let same : str_eq e.purchase_intent_hash hash ≡ true = rw m.same_intent (eq_refl hash) in
      let exchange : str_eq (lower e.exchange_contract) (lower i.exchange_contract) ≡ true =
        rw m.exchange (eq_refl (lower i.exchange_contract)) in
      let chain : is_other_chain e.chain_id i.chain_id ≡ false =
        rw m.chain (rw (eqb_ℤ-refl i.chain_id) refl) in
      let spent : eqb_ℤ e.usdg_spent (pos i.usdg_in) ≡ true =
        rw m.spent (eqb_ℤ-refl (pos i.usdg_in)) in
      let credit : ltb_ℤ e.credit_out (pos i.min_credit_out) ≡ false = ground (arith, m.credit) in
      let complete = IsComplete-lacks_evidence e i.chain_id m.complete m.chain in
      let beneficiary = beneficiary-is_beneficiary e m.beneficiary in
      let activated = activated-is_activated e m.activated in
      simp (
        complete, same, tenant, org, exchange, chain, network, spent, credit, beneficiary,
        activated, m.as_expected,
      )

  -- The report on such evidence where no other reference was recorded for the intent.
  pub verify-verified :
      (e : OrbioPurchaseEvidence) (outcome : String) (expected : Option String)
      (known : Dict String)
      → outcome ≡ "SUCCESS"
      → Matches lib i e expected
      → ((r : String)
          → lookup (compute_purchase_intent_hash lib i) known ≡ some r
          → r ≡ e.provider_reference)
      → (verify lib i (some e) (some outcome) expected known).0.result ≡ verified
  unfolding verify
  verify-verified e outcome expected known success m same = rw success (
      rw (Matches-evidence_code e expected m)
        (go (lookup (compute_purchase_intent_hash lib i) known) refl))
    where
      go :
          (prior : Option String)
          → lookup (compute_purchase_intent_hash lib i) known ≡ prior
          → (settle_reference lib i prior e.provider_reference known).0.result ≡ verified
      go none h = refl
      go (some r) h = rw (same r h) (simp (eq_refl e.provider_reference))
