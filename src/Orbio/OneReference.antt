-- ===== src/Orbio/OneReference.antt =====
-- All the verified reports of one intent hash carry one reference.
use kalyx_mao_engine.Base.{
  String, Bool, true, false, ◌≡◌, ◌≢◌, refl, sym, ◌∙◌, Option, some, List, [], ◌∷◌, ◌&&◌, inl, inr,
  arith, str_eq, eq_iff, if◌then◌else◌, Bool-cases,
}
use kalyx_mao_engine.Base.Dict.{Dict, lookup, lookup-insert}
use kalyx_mao_engine.Orbio.Intents.{OrbioPurchaseIntent, Digests, compute_purchase_intent_hash}
use kalyx_mao_engine.Orbio.Verifier.{
  OrbioPurchaseEvidence, PurchaseVerificationReport, PurchaseVerificationResult, verified, rejected,
  pending_evidence, verify,
}
use kalyx_mao_engine.Orbio.Verified.{Verification, refused, first, again, verify-Verification}

pub record VerifyCall : Type 0 where
  pub intent : OrbioPurchaseIntent
  pub evidence : Option OrbioPurchaseEvidence
  pub outcome : Option String
  pub expected : Option String

abbrev pub is_verified : PurchaseVerificationResult → Bool
is_verified verified = true
is_verified rejected = false
is_verified pending_evidence = false

abbrev pub AllAre : Option String → List (Option String) → Type 0
AllAre r [] = Unit {0}
AllAre r (x ∷ xs) = (x ≡ r) × AllAre r xs

-- The members are one and the same.
abbrev pub Uniform : List (Option String) → Type 0
Uniform [] = Unit {0}
Uniform (x ∷ xs) = AllAre x xs

abbrev pub is_report_of : String → PurchaseVerificationReport → Bool
is_report_of hash r = is_verified r.result && str_eq r.intent_hash hash

not_verified : (r : PurchaseVerificationResult) → r ≢ verified → is_verified r ≡ false
not_verified verified h = absurd (h refl)
not_verified rejected h = refl
not_verified pending_evidence h = refl

module _ (lib : Digests) (hash : String) where
  abbrev verify_call : VerifyCall → Dict String → PurchaseVerificationReport × Dict String
  verify_call c known = verify lib c.intent c.evidence c.outcome c.expected known

  -- The references of the verified reports of this hash.
  unfoldable pub references : List VerifyCall → Dict String → List (Option String)
  references [] known = []
  references (c ∷ cs) known =
      let (r, known') = verify_call c known in
      let later = references cs known' in
      if is_report_of hash r then r.provider_reference ∷ later else later

  -- What is recorded of the hash after a call.
  record Recorded (known : Dict String) (out : PurchaseVerificationReport × Dict String)
      : Type 0 where
    kept : (r : String) → lookup hash known ≡ some r → lookup hash out.1 ≡ some r
    made :
        is_report_of hash out.0 ≡ true
        → (r : String) × (out.0.provider_reference ≡ some r) × (lookup hash out.1 ≡ some r)

  Verification-Recorded :
      (i : OrbioPurchaseIntent) (evidence : Option OrbioPurchaseEvidence) (expected : Option String)
      (known : Dict String) (out : PurchaseVerificationReport × Dict String)
      → Verification lib i evidence expected known out
      → Recorded known out
  Verification-Recorded i evidence expected known _ (refused r other) = record {
    kept = λ s h. h;
    made = λ h. cc (simp (not_verified r.result other) at h);
  }
  Verification-Recorded i evidence expected known _ (first e has matches new) =
      let own = compute_purchase_intent_hash lib i in
      record {
        kept = λ s h.
            ground
              (arith, h, new, lookup-insert own hash e.provider_reference known, eq_iff own hash);
        made = λ h. (
          e.provider_reference,
          refl,
          ground (arith, h, lookup-insert own hash e.provider_reference known),
        );
      }
  Verification-Recorded i evidence expected known _ (again e has matches prior) =
      let own = compute_purchase_intent_hash lib i in
      record {
        kept = λ s h. h;
        made = λ h.
            let same : own ≡ hash = ground (arith, h, eq_iff own hash) in
            (e.provider_reference, refl, rw same at prior);
      }

  call-Recorded : (c : VerifyCall) (known : Dict String) → Recorded known (verify_call c known)
  call-Recorded c known =
      Verification-Recorded c.intent c.evidence c.expected known _
        (verify-Verification lib c.intent c.evidence c.outcome c.expected known)

  references_of_recorded :
      (cs : List VerifyCall) (known : Dict String) (r : String)
      → lookup hash known ≡ some r
      → AllAre (some r) (references cs known)
  unfolding references
  references_of_recorded [] known r h = tt
  references_of_recorded (c ∷ cs) known r h =
      let after = call-Recorded c known in
      let later = references_of_recorded cs (verify_call c known).1 r (after.kept r h) in
      elim (Bool-cases (is_report_of hash (verify_call c known).0)) [
        | inr other ↦ rw other later
        | inl ours ↦
            let (s, reference, recorded) = after.made ours in
            let same : some s ≡ some r = sym recorded ∙ after.kept r h in
            rw ours (reference ∙ same, later)
      ]

  -- Of any calls of `verify`, with any intents, evidence and provider outcomes, all the VERIFIED reports
  -- of one intent hash carry the same provider reference: no second transaction is accepted for it.
  pub references-Uniform :
      (cs : List VerifyCall) (known : Dict String) → Uniform (references cs known)
  unfolding references
  references-Uniform [] known = tt
  references-Uniform (c ∷ cs) known =
      let after = call-Recorded c known in
      elim (Bool-cases (is_report_of hash (verify_call c known).0)) [
        | inr other ↦ rw other (references-Uniform cs (verify_call c known).1)
        | inl ours ↦
            let (s, reference, recorded) = after.made ours in
            rw ours (rw reference (references_of_recorded cs (verify_call c known).1 s recorded))
      ]
