-- ===== src/Orbio/Verified.antt =====
-- What VERIFIED means, and what a call of `verify` records.
use kalyx_mao_engine.Base.{
  String, ◌≡◌, ◌≢◌, refl, ◌∙◌, ap, Option, none, some, inl, inr, arith, str_eq, eq_iff, Bool-cases,
}
use kalyx_mao_engine.Base.Dict.{Dict, lookup, insert}
use kalyx_mao_engine.Orbio.Intents.{OrbioPurchaseIntent, Digests, compute_purchase_intent_hash}
use kalyx_mao_engine.Orbio.Verifier.{
  OrbioPurchaseEvidence, PurchaseVerificationReport, PurchaseVerificationCode, verified, fine,
  already_verified, evidence_code, is_unsettled, rejected, wrong_provider_reference, report,
  settle_reference, conclude, verify_outcome, verify_absent, verify,
}
use kalyx_mao_engine.Orbio.Matching.{Matches, evidence_code-Matches}

module _ (lib : Digests) (i : OrbioPurchaseIntent) where
  -- What a call of `verify` does: it does not verify and records nothing, or it verifies evidence that
  -- matches, for the first time or under the reference that is recorded.
  pub data Verification (evidence : Option OrbioPurchaseEvidence) (expected : Option String)
      (known : Dict String) : PurchaseVerificationReport × Dict String → Type 0 where
    refused :
        (r : PurchaseVerificationReport)
        → r.result ≢ verified
        → Verification evidence expected known (r, known)
    first :
        (e : OrbioPurchaseEvidence)
        → evidence ≡ some e
        → Matches lib i e expected
        → lookup (compute_purchase_intent_hash lib i) known ≡ none
        → Verification evidence expected known (
          report lib i verified fine (some e.provider_reference),
          insert (compute_purchase_intent_hash lib i) e.provider_reference known,
        )
    again :
        (e : OrbioPurchaseEvidence)
        → evidence ≡ some e
        → Matches lib i e expected
        → lookup (compute_purchase_intent_hash lib i) known ≡ some e.provider_reference
        → Verification evidence expected known
            (report lib i verified already_verified (some e.provider_reference), known)

  conclude-Verification :
      (e : OrbioPurchaseEvidence) (expected : Option String) (known : Dict String)
      (code : Option PurchaseVerificationCode)
      → evidence_code lib i e expected ≡ code
      → Verification (some e) expected known (conclude lib i code e known)
  conclude-Verification e expected known (some code) h =
      refused (report lib i rejected code (some e.provider_reference)) (λ r. cc r)
  conclude-Verification e expected known none h =
      let hash = compute_purchase_intent_hash lib i in go (lookup hash known) refl
    where
      go :
          (prior : Option String)
          → lookup (compute_purchase_intent_hash lib i) known ≡ prior
          → Verification
              (some e)
              expected
              known
              (settle_reference lib i prior e.provider_reference known)
      go none found = first e refl (evidence_code-Matches lib i e expected h) found
      go (some prior) found = elim (Bool-cases (str_eq prior e.provider_reference)) [
        | inl same ↦
            let eq : prior ≡ e.provider_reference =
              ground (arith, same, eq_iff prior e.provider_reference) in
            rw same (again e refl (evidence_code-Matches lib i e expected h) (found ∙ ap some eq))
        | inr other ↦ rw other (
            refused (report lib i rejected wrong_provider_reference (some e.provider_reference))
              (λ r. cc r))
      ]

  pub absent-refused : (outcome : Option String) → (verify_absent lib i outcome).result ≢ verified
  absent-refused none r = cc
  absent-refused (some outcome) r = elim (Bool-cases (is_unsettled lib i outcome)) [
    | inl unsettled ↦ cc (simp unsettled at r)
    | inr over ↦ cc (simp over at r)
  ]

  outcome-Verification :
      (outcome : Option String) (e : OrbioPurchaseEvidence) (expected : Option String)
      (known : Dict String)
      → Verification (some e) expected known (verify_outcome lib i outcome e expected known)
  outcome-Verification none e expected known =
      conclude-Verification e expected known (evidence_code lib i e expected) refl
  outcome-Verification (some outcome) e expected known =
      elim (Bool-cases (str_eq outcome "SUCCESS")) [
        | inl success ↦
            rw success
              (conclude-Verification e expected known (evidence_code lib i e expected) refl)
        | inr other ↦ elim (Bool-cases (is_unsettled lib i outcome)) [
          | inl unsettled ↦ rw other (rw unsettled (refused _ (λ r. cc r)))
          | inr over ↦ rw other (rw over (refused _ (λ r. cc r)))
        ]
      ]

  pub verify-Verification :
      (evidence : Option OrbioPurchaseEvidence) (outcome expected : Option String)
      (known : Dict String)
      → Verification evidence expected known (verify lib i evidence outcome expected known)
  unfolding verify
  verify-Verification none outcome expected known =
      refused (verify_absent lib i outcome) (absent-refused outcome)
  verify-Verification (some e) outcome expected known =
      outcome-Verification outcome e expected known

  -- A report is VERIFIED only for evidence that matches the intent in hash, scope, exchange, chain,
  -- network, amount, least output, beneficiary and activation; it carries the reference of that evidence.
  pub verify-Matches :
      (evidence : Option OrbioPurchaseEvidence) (outcome expected : Option String)
      (known : Dict String)
      → (verify lib i evidence outcome expected known).0.result ≡ verified
      → (e : OrbioPurchaseEvidence) × (evidence ≡ some e)
        × Matches lib i e expected
        × ((verify lib i evidence outcome expected known).0.provider_reference
            ≡ some e.provider_reference)
  verify-Matches evidence outcome expected known h =
      go _ (verify-Verification evidence outcome expected known) h
    where
      go :
          (out : PurchaseVerificationReport × Dict String)
          → Verification evidence expected known out
          → out.0.result ≡ verified
          → (e : OrbioPurchaseEvidence) × (evidence ≡ some e)
            × Matches lib i e expected
            × (out.0.provider_reference ≡ some e.provider_reference)
      go _ (refused r other) won = absurd (other won)
      go _ (first e has matches new) won = (e, has, matches, refl)
      go _ (again e has matches prior) won = (e, has, matches, refl)
