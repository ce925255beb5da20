-- ===== src/Orbio/Soundness.antt =====
-- The reconciliation of a purchase keeps every ledger sound.
use kalyx_mao_engine.Base.{
  ℕ, String, Bool, true, false, refl, Option, some, List, [], ◌∷◌, any, not, if◌then◌else◌,
}
use kalyx_mao_engine.Base.Int.{ℤ}
use kalyx_mao_engine.Base.Dict.{Dict}
use kalyx_mao_engine.Base.Outcome.{Result, ok, err}
use kalyx_mao_engine.Ledger.{Stamp, treasury, external_sink}
use kalyx_mao_engine.Entities.{Organisation}
use kalyx_mao_engine.Operation.{
  ConsequentialOperation, Transition, is_state, reconciled, reconciling,
}
use kalyx_mao_engine.Execution.State.{Field, text, flag, World, Exec, ◌>>=◌, move_to, save, in_hand}
use kalyx_mao_engine.Execution.Reconciliation.{
  ProviderStatusResult, StatusReply, query_status, is_terminal, is_unresolved,
}
use kalyx_mao_engine.Execution.Soundness.{
  IsSound, KeepsSound, >>=-KeepsSound, if-IsSound, if_positive-KeepsSound, advance-KeepsSound,
  in_hand-KeepsSound, move_to-KeepsSound, save-KeepsSound,
}
use kalyx_mao_engine.Execution.ServiceSoundness.{pay_once-KeepsSound}
use kalyx_mao_engine.Orbio.Intents.{
  optional_text, OrbioPurchaseIntent, Digests, compute_purchase_intent_hash,
}
use kalyx_mao_engine.Orbio.Verifier.{
  OrbioPurchaseEvidence, PurchaseVerificationReport, PurchaseVerificationResult, verified, rejected,
  pending_evidence, verify, is_unexpected,
}
use kalyx_mao_engine.Orbio.Reconciliation.{
  EconomicAction, pays_out, pays_back, mark_reconciled, outcome_of, payout_tx, refund_tx,
  settle_success, settle_failure, purchase_event, stay_pending, conclude, start, is_foreign,
  is_purchase, ask, conclude_on, verify_and_conclude, reconcile, untouched, settled, refunded,
}

either-IsSound {ℓ} :
    {A : Type ℓ} (n : ℤ) (b : Bool) (r r' : (Result A × World) × Dict String)
    → IsSound n r.0.1.ledger
    → IsSound n r'.0.1.ledger
    → IsSound n (if b then r else r').0.1.ledger
either-IsSound n true r r' h h' = h
either-IsSound n false r r' h h' = h'

mark-KeepsSound : (t : Transition) → KeepsSound (mark_reconciled t)
mark-KeepsSound t = record {
  keeps = λ n w h. if-IsSound n (is_state w.operation.state reconciled) _ _ h (
      (>>=-KeepsSound (move_to t) (λ _. save) (move_to-KeepsSound t) λ _. save-KeepsSound).keeps n w
        h);
}

outcome-KeepsSound :
    (report : Option PurchaseVerificationReport) (action : EconomicAction)
    → KeepsSound (outcome_of report action)
outcome-KeepsSound report action = record { keeps = λ n w h. h }

module _ (lib : Digests) (reason_of : PurchaseVerificationReport → String) where
  event-KeepsSound :
      (type : String) (report : PurchaseVerificationReport) (more : List (String × Field))
      → KeepsSound (purchase_event lib reason_of type report more)
  event-KeepsSound type report more = record { keeps = λ n w h. h }

  settle_success-KeepsSound :
      (s : Stamp) (now : ℕ) (status : ProviderStatusResult)
      → KeepsSound (settle_success lib reason_of s now status)
  unfolding settle_success
  settle_success-KeepsSound s now status =
      >>=-KeepsSound _ _
        (if_positive-KeepsSound _ (record {
          keeps = λ n w h.
              (pay_once-KeepsSound (any (pays_out w.operation) w.ledger.entries) s external_sink _
                  (payout_tx lib reason_of w.operation) refl).keeps
                n w h;
        }))
        λ _. mark-KeepsSound _

  settle_failure-KeepsSound :
      (s : Stamp) (now : ℕ) (status : ProviderStatusResult) (report : PurchaseVerificationReport)
      → KeepsSound (settle_failure lib reason_of s now status report)
  unfolding settle_failure
  settle_failure-KeepsSound s now status report =
      >>=-KeepsSound _ _
        (if_positive-KeepsSound _ (record {
          keeps = λ n w h.
              (pay_once-KeepsSound (any (pays_back w.operation) w.ledger.entries) s treasury _
                  (refund_tx lib reason_of w.operation) refl).keeps
                n w h;
        }))
        λ _. mark-KeepsSound _

  stay_pending-KeepsSound :
      (now : ℕ) (status : ProviderStatusResult) (report : PurchaseVerificationReport)
      → KeepsSound (stay_pending lib reason_of now status report)
  unfolding stay_pending
  stay_pending-KeepsSound now status report = >>=-KeepsSound _ _ in_hand-KeepsSound λ op.
      >>=-KeepsSound _ _ (move_to-KeepsSound _) λ _. >>=-KeepsSound _ _ save-KeepsSound λ _.
        event-KeepsSound "ORBIO_PURCHASE_RECONCILIATION_PENDING" report
          (("provider_outcome", text status.outcome) ∷ ("escrow_locked", flag true) ∷ [])

  conclude-KeepsSound :
      (s : Stamp) (now : ℕ) (status : ProviderStatusResult) (report : PurchaseVerificationReport)
      (verdict : PurchaseVerificationResult)
      → KeepsSound (conclude lib reason_of s now status report verdict)
  unfolding conclude
  conclude-KeepsSound s now status report verified =
      >>=-KeepsSound _ _ (settle_success-KeepsSound s now status) λ _.
        >>=-KeepsSound _ _
          (event-KeepsSound "ORBIO_PURCHASE_RECONCILED_VERIFIED" report
            (("provider_reference", optional_text status.provider_reference) ∷ []))
          λ _. outcome-KeepsSound (some report) settled
  conclude-KeepsSound s now status report rejected =
      >>=-KeepsSound _ _ (settle_failure-KeepsSound s now status report) λ _.
        >>=-KeepsSound _ _ (event-KeepsSound "ORBIO_PURCHASE_RECONCILED_REJECTED" report [])
          λ _. outcome-KeepsSound (some report) refunded
  conclude-KeepsSound s now status report pending_evidence =
      >>=-KeepsSound _ _ (stay_pending-KeepsSound now status report)
        λ _. outcome-KeepsSound (some report) untouched

  start-KeepsSound : (now : ℕ) (i : OrbioPurchaseIntent) → KeepsSound (start lib reason_of now i)
  start-KeepsSound now i = record {
    keeps = λ n w h.
        if-IsSound n (is_state w.operation.state reconciling) _ _ h
          ((advance-KeepsSound _ _ _ _).keeps n w h);
  }

  module _ (with_reference : String → String → Option String → StatusReply)
      (without : String → String → StatusReply)
      (evidence_of : ProviderStatusResult
        → ConsequentialOperation
        → Result (Option OrbioPurchaseEvidence))
      (stored_hash : String → Option String) (i : OrbioPurchaseIntent) (org : Organisation)
      (s : Stamp) (now : ℕ) where
    ask-KeepsSound :
        KeepsSound (ask lib reason_of with_reference without evidence_of stored_hash i org now)
    ask-KeepsSound =
        >>=-KeepsSound (start lib reason_of now i) (λ _. status_asked) (start-KeepsSound now i)
          λ _.
            >>=-KeepsSound in_hand (λ op w. (query_status with_reference without op, w))
              in_hand-KeepsSound λ op. record { keeps = λ n w h. h }
      where
        status_asked : Exec ProviderStatusResult
        status_asked = do op ← in_hand; (λ w. (query_status with_reference without op, w))

    conclude_on-IsSound :
        (n : ℤ) (status : ProviderStatusResult) (w : World) (known : Dict String)
        (evidence : Result (Option OrbioPurchaseEvidence))
        → IsSound n w.ledger
        → IsSound n (conclude_on lib reason_of i s now status w known evidence).0.1.ledger
    conclude_on-IsSound n status w known (err e) h = h
    conclude_on-IsSound n status w known (ok evidence) h =
        let report =
          (verify lib i evidence (some status.outcome) status.provider_reference known).0 in
        (conclude-KeepsSound s now status report report.result).keeps n w h

    verify_and_conclude-IsSound :
        (n : ℤ) (asked : Result ProviderStatusResult × World) (known : Dict String)
        → IsSound n asked.1.ledger
        → IsSound n
            (verify_and_conclude lib reason_of with_reference without evidence_of stored_hash i org
              s now asked known).0.1.ledger
    verify_and_conclude-IsSound n (err e, w) known h = h
    verify_and_conclude-IsSound n (ok status, w) known h =
        conclude_on-IsSound n status w known (evidence_of status w.operation) h

    reconcile-IsSound :
        (n : ℤ) (w : World) (known : Dict String)
        → IsSound n w.ledger
        → IsSound n
            (reconcile lib reason_of with_reference without evidence_of stored_hash i org s now w
              known).0.1.ledger
    unfolding reconcile
    reconcile-IsSound n w known h =
        either-IsSound n
          (is_foreign lib reason_of with_reference without evidence_of stored_hash i org
            w.operation)
          _ _ h
          (either-IsSound n (not (is_purchase w.operation)) _ _ h (
            either-IsSound n (is_terminal w.operation.state) _ _ h (
              either-IsSound n (not (is_unresolved w.operation.state)) _ _ h (
                either-IsSound n
                  (is_unexpected (stored_hash w.operation.parameters)
                    (compute_purchase_intent_hash lib i))
                  _ _ h (verify_and_conclude-IsSound n _ known (ask-KeepsSound.keeps n w h))))))

    -- A reconciliation, whatever the provider answers, whatever the evidence and the references are
    -- and whether it returns or raises, neither overdraws an account nor creates or destroys credits.
    pub reconcile-KeepsSound :
        (known : Dict String)
        → KeepsSound (λ w.
          (reconcile lib reason_of with_reference without evidence_of stored_hash i org s now w
            known).0)
    reconcile-KeepsSound known = record { keeps = λ n w h. reconcile-IsSound n w known h }
