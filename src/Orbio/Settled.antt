-- ===== src/Orbio/Settled.antt =====
-- A purchase is settled on evidence only.
use kalyx_mao_engine.Base.{
  ℕ, String, Bool, true, false, ◌≡◌, ◌≢◌, refl, ◌∙◌, Option, none, some, [], ◌∷◌, not, inl, inr,
  Bool-cases, if◌then◌else◌, arith, str_eq, str_append, eq_iff, any, ap,
}
use kalyx_mao_engine.Base.Dict.{Dict}
use kalyx_mao_engine.Base.Outcome.{Result, ok, err}
use kalyx_mao_engine.Ledger.{Stamp, external_sink}
use kalyx_mao_engine.Entities.{Organisation}
use kalyx_mao_engine.Operation.{ConsequentialOperation, Transition, reconciled}
use kalyx_mao_engine.Execution.State.{World, Exec, proceed, if_positive}
use kalyx_mao_engine.Execution.Reconciliation.{
  pay_once, ProviderStatusResult, StatusReply, is_terminal, is_unresolved,
}
use kalyx_mao_engine.Orbio.Intents.{
  optional_text, OrbioPurchaseIntent, Digests, compute_purchase_intent_hash,
}
use kalyx_mao_engine.Orbio.Verifier.{
  OrbioPurchaseEvidence, PurchaseVerificationReport, PurchaseVerificationResult, verified, rejected,
  pending_evidence, verify, is_unexpected, is_unsettled,
}
use kalyx_mao_engine.Orbio.Matching.{Matches}
use kalyx_mao_engine.Orbio.Verified.{verify-Matches, absent-refused}
use kalyx_mao_engine.Orbio.Reconciliation.{
  EconomicAction, PurchaseReconciliationOutcome, mark_reconciled, pays_out, payout_tx,
  purchase_event, outcome_of, settle_success, settle_failure, stay_pending, conclude, is_foreign,
  is_purchase, ask, conclude_on, verify_and_conclude, reconcile, settled, refunded, untouched,
}
use kalyx_mao_engine.Orbio.Ending.{Ended, mark-Ended, EndsReconciled, >>=-EndsReconciled}

module _ (lib : Digests) (reason_of : PurchaseVerificationReport → String) where
  settle_success-EndsReconciled :
      (s : Stamp) (now : ℕ) (status : ProviderStatusResult)
      → EndsReconciled (settle_success lib reason_of s now status)
  unfolding settle_success
  settle_success-EndsReconciled s now status =
      >>=-EndsReconciled (if_positive paid) (λ _. mark_reconciled done)
        λ _. record { ends = λ w. mark-Ended done w refl }
    where
      paid : Exec (Unit {0})
      paid w =
          pay_once (any (pays_out w.operation) w.ledger.entries) s external_sink
            (str_append "Orbio purchase reconciliation settlement for " w.operation.id)
            (payout_tx lib reason_of w.operation) w

      done : Transition
      done = record {
        new_state = reconciled;
        error_message = none;
        provider_reference = status.provider_reference;
        now = now;
      }

  module _ (with_reference : String → String → Option String → StatusReply)
      (without : String → String → StatusReply)
      (evidence_of : ProviderStatusResult
        → ConsequentialOperation
        → Result (Option OrbioPurchaseEvidence))
      (stored_hash : String → Option String) (i : OrbioPurchaseIntent) (org : Organisation)
      (s : Stamp) (now : ℕ) where
    abbrev asked : World → Result ProviderStatusResult × World
    asked = ask lib reason_of with_reference without evidence_of stored_hash i org now

    -- The provider reported SUCCESS, with evidence that matches the intent, and the operation that is
    -- returned is RECONCILED.
    pub record Settlement (w : World) (o : PurchaseReconciliationOutcome) : Type 0 where
      pub status : ProviderStatusResult
      pub evidence : OrbioPurchaseEvidence
      pub answered : (asked w).0 ≡ ok status
      pub success : status.outcome ≡ "SUCCESS"
      pub extracted : evidence_of status (asked w).1.operation ≡ ok (some evidence)
      pub matches : Matches lib i evidence status.provider_reference
      pub ended : o.operation.state ≡ reconciled

    abbrev Backed : World → Result PurchaseReconciliationOutcome → Type 0
    Backed w (ok o) = o.economic_action ≡ settled → Settlement w o
    Backed w (err e) = Unit {0}

    either-Backed :
        (w : World) (b : Bool) (r r' : (Result PurchaseReconciliationOutcome × World) × Dict String)
        → Backed w r.0.0
        → Backed w r'.0.0
        → Backed w (if b then r else r').0.0
    either-Backed w true r r' h h' = h
    either-Backed w false r r' h h' = h'

    other-Backed :
        (w : World) (r : Result (Unit {0}) × World) (f : World → World)
        (report : Option PurchaseVerificationReport) (action : EconomicAction)
        → action ≢ settled
        → Backed w (proceed r (λ _ w'. outcome_of report action (f w'))).0
    other-Backed w (ok a, w') f report action other = λ h. absurd (other h)
    other-Backed w (err e, w') f report action other = tt

    verified-Backed :
        (w : World) (r : Result (Unit {0}) × World) (f : World → World)
        (report : Option PurchaseVerificationReport)
        → ((w' : World) → (f w').operation ≡ w'.operation)
        → Ended r
        → ((o : PurchaseReconciliationOutcome) → o.operation.state ≡ reconciled → Settlement w o)
        → Backed w (proceed r (λ _ w'. outcome_of report settled (f w'))).0
    verified-Backed w (ok a, w') f report same h settlement =
        λ _. settlement _ (ap (λ op. op.state) (same w') ∙ h)
    verified-Backed w (err e, w') f report same h settlement = tt

    verified_on_success :
        (evidence : Option OrbioPurchaseEvidence) (outcome : String) (expected : Option String)
        (known : Dict String)
        → (verify lib i evidence (some outcome) expected known).0.result ≡ verified
        → outcome ≡ "SUCCESS"
    unfolding verify
    verified_on_success none outcome expected known h =
        absurd (absent-refused lib i (some outcome) h)
    verified_on_success (some e) outcome expected known h =
        elim (Bool-cases (str_eq outcome "SUCCESS")) [
          | inl success ↦ ground (arith, success, eq_iff outcome "SUCCESS")
          | inr other ↦ elim (Bool-cases (is_unsettled lib i outcome)) [
            | inl unsettled ↦ (let k = simp other at h in cc (simp unsettled at k))
            | inr over ↦ (let k = simp other at h in cc (simp over at k))
          ]
        ]

    conclude-Backed :
        (w : World) (known : Dict String) (status : ProviderStatusResult) (w' : World)
        (evidence : Option OrbioPurchaseEvidence)
        → asked w ≡ (ok status, w')
        → evidence_of status w'.operation ≡ ok evidence
        → (verdict : PurchaseVerificationResult)
        → let report =
            (verify lib i evidence (some status.outcome) status.provider_reference known).0 in
          report.result ≡ verdict
          → Backed w (conclude lib reason_of s now status report verdict w').0
    unfolding conclude
    conclude-Backed w known status w' evidence answer given verified h =
        let report =
          (verify lib i evidence (some status.outcome) status.provider_reference known).0 in
        verified-Backed w (settle_success lib reason_of s now status w')
          (λ v.
            (purchase_event lib reason_of "ORBIO_PURCHASE_RECONCILED_VERIFIED" report
              (("provider_reference", optional_text status.provider_reference) ∷ []) v).1)
          (some report) (λ v. refl) ((settle_success-EndsReconciled s now status).ends w')
          λ o ended.
            let (e, has, matches, reference) =
              verify-Matches lib i evidence (some status.outcome) status.provider_reference known
                h in
            record {
              status = status;
              evidence = e;
              answered = ap (λ r. r.0) answer;
              success =
                  verified_on_success evidence status.outcome status.provider_reference known h;
              extracted = rw answer (given ∙ ap ok has);
              matches = matches;
              ended = ended;
            }
    conclude-Backed w known status w' evidence answer given rejected h =
        let report =
          (verify lib i evidence (some status.outcome) status.provider_reference known).0 in
        other-Backed w (settle_failure lib reason_of s now status report w')
          (λ v. (purchase_event lib reason_of "ORBIO_PURCHASE_RECONCILED_REJECTED" report [] v).1)
          (some report) refunded (λ e. cc e)
    conclude-Backed w known status w' evidence answer given pending_evidence h =
        let report =
          (verify lib i evidence (some status.outcome) status.provider_reference known).0 in
        other-Backed w (stay_pending lib reason_of now status report w') (λ v. v) (some report)
          untouched (λ e. cc e)

    conclude_on-Backed :
        (w : World) (known : Dict String) (status : ProviderStatusResult) (w' : World)
        (evidence : Result (Option OrbioPurchaseEvidence))
        → asked w ≡ (ok status, w')
        → evidence_of status w'.operation ≡ evidence
        → Backed w (conclude_on lib reason_of i s now status w' known evidence).0.0
    conclude_on-Backed w known status w' (ok evidence) answer given =
        conclude-Backed w known status w' evidence answer given _ refl
    conclude_on-Backed w known status w' (err e) answer given = tt

    verify_and_conclude-Backed :
        (w : World) (known : Dict String) (r : Result ProviderStatusResult × World)
        → asked w ≡ r
        → Backed w
            (verify_and_conclude lib reason_of with_reference without evidence_of stored_hash i org
              s now r known).0.0
    verify_and_conclude-Backed w known (ok status, w') answer =
        conclude_on-Backed w known status w' _ answer refl
    verify_and_conclude-Backed w known (err e, w') answer = tt

    reconcile-Backed :
        (w : World) (known : Dict String)
        → Backed w
            (reconcile lib reason_of with_reference without evidence_of stored_hash i org s now w
              known).0.0
    unfolding reconcile
    reconcile-Backed w known =
        either-Backed w
          (is_foreign lib reason_of with_reference without evidence_of stored_hash i org
            w.operation)
          _ _ tt
          (either-Backed w (not (is_purchase w.operation)) _ _ tt (
            either-Backed w (is_terminal w.operation.state) _ _ (λ e. cc e)
              (either-Backed w (not (is_unresolved w.operation.state)) _ _ tt (
                either-Backed w
                  (is_unexpected (stored_hash w.operation.parameters)
                    (compute_purchase_intent_hash lib i))
                  _ _ tt (verify_and_conclude-Backed w known _ refl)))))

    -- A reconciliation that returns `settled` was answered SUCCESS by the provider, with evidence that
    -- matches the intent, and has left the operation RECONCILED.
    pub reconcile-Settlement :
        (w : World) (known : Dict String) (o : PurchaseReconciliationOutcome)
        → (reconcile lib reason_of with_reference without evidence_of stored_hash i org s now w
            known).0.0
          ≡ ok o
        → o.economic_action ≡ settled
        → Settlement w o
    reconcile-Settlement w known o returned done =
        let backed = reconcile-Backed w known in (rw returned at backed) done
