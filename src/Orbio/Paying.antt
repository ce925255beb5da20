-- ===== src/Orbio/Paying.antt =====
-- A purchase with evidence that matches is settled.
use kalyx_mao_engine.Base.{
  ℕ, String, true, false, ◌≡◌, refl, ap, ◌∙◌, Option, none, some, [], ◌∷◌, any, arith, str_append,
  or_else,
}
use kalyx_mao_engine.Base.Int.{pos, ltb_ℤ}
use kalyx_mao_engine.Base.Dict.{Dict, lookup}
use kalyx_mao_engine.Base.Outcome.{Result, ok}
use kalyx_mao_engine.Ledger.{Stamp, LedgerEntry, escrow, external_sink, entry_of}
use kalyx_mao_engine.Ledger.Methods.{Accepts}
use kalyx_mao_engine.Entities.{Organisation}
use kalyx_mao_engine.Operation.{
  ConsequentialOperation, Transition, is_state, valid_transitions, reconciling, reconciled,
}
use kalyx_mao_engine.Execution.State.{text, World, save, move_to}
use kalyx_mao_engine.Execution.Steps.{
  Unclashed, Advanced, then_ok, moved, move_to-ok, stored, save_in-ok, paid,
}
use kalyx_mao_engine.Execution.Submission.{Paid}
use kalyx_mao_engine.Execution.Reconciliation.{
  ProviderStatusResult, StatusReply, query_status, is_terminal, is_unresolved,
}
use kalyx_mao_engine.Execution.Recovery.{reconciling-Advanced, pay_once-paid}
use kalyx_mao_engine.Execution.Outcomes.{payment-Paid, Paid-between}
use kalyx_mao_engine.Orbio.Intents.{OrbioPurchaseIntent, Digests, compute_purchase_intent_hash}
use kalyx_mao_engine.Orbio.Verifier.{
  OrbioPurchaseEvidence, PurchaseVerificationReport, verified, is_unexpected, verify,
}
use kalyx_mao_engine.Orbio.Matching.{Matches}
use kalyx_mao_engine.Orbio.Reconciliation.{
  PurchaseReconciliationOutcome, settled, pays_out, payout_tx, mark_reconciled, settle_success,
  conclude, is_foreign, is_purchase, reconcile, actor, ask, start,
}
use kalyx_mao_engine.Orbio.Acceptance.{verify-verified}

mark-ok :
    (t : Transition) (w : World)
    → is_state w.operation.state reconciled ≡ false
    → any (is_state t.new_state) (valid_transitions w.operation.state) ≡ true
    → Unclashed w.operation w.operations
    → mark_reconciled t w ≡ (
      ok tt,
      record w {
        operation = moved t w.operation;
        operations = stored (moved t w.operation) w.operations;
      },
    )
mark-ok t w other legal free = simp other (
    then_ok (move_to t) save w (move_to-ok t w legal)
    ∙ save_in-ok w.operations (record w { operation = moved t w.operation }) refl free)

module _ (lib : Digests) (reason_of : PurchaseVerificationReport → String) (s : Stamp)
    (now : ℕ) where
  -- The payment of the operation's amount out of escrow.
  abbrev payment : ConsequentialOperation → LedgerEntry
  payment op =
      entry_of s (or_else (some (payout_tx lib reason_of op)) s.uuid) escrow external_sink op.amount
        (str_append "Orbio purchase reconciliation settlement for " op.id)

  abbrev done : ProviderStatusResult → Transition
  done status = record {
    new_state = reconciled;
    error_message = none;
    provider_reference = status.provider_reference;
    now = now;
  }

  abbrev settled_world : ProviderStatusResult → World → World
  settled_world status w =
      let op = moved (done status) w.operation in
      record (paid (payment w.operation) w) { operation = op; operations = stored op w.operations }

  settle_success-pays :
      (status : ProviderStatusResult) (w : World)
      → w.operation.state ≡ reconciling
      → Unclashed w.operation w.operations
      → any (pays_out w.operation) w.ledger.entries ≡ false
      → Accepts escrow external_sink w.operation.amount
          (or_else (some (payout_tx lib reason_of w.operation)) s.uuid)
          w.ledger
      → settle_success lib reason_of s now status w ≡ (ok tt, settled_world status w)
  unfolding settle_success
  settle_success-pays status w state free new accepts =
      let positive : ltb_ℤ (pos 0) w.operation.amount ≡ true = ground (arith, accepts.positive) in
      let other : is_state w.operation.state reconciled ≡ false = rw state refl in
      rw positive (
        rw new (
          rw
            (pay_once-paid s external_sink
              (str_append "Orbio purchase reconciliation settlement for " w.operation.id)
              (payout_tx lib reason_of w.operation) w accepts)
            (mark-ok (done status) (paid (payment w.operation) w) other (rw state refl) free)))

  -- A reconciliation that settled: the amount went from escrow to the external sink.
  pub record Purchased (w : World) (r : Result PurchaseReconciliationOutcome × World) : Type 0 where
    pub outcome : PurchaseReconciliationOutcome
    pub returned : r.0 ≡ ok outcome
    pub action : outcome.economic_action ≡ settled
    pub state : outcome.operation.state ≡ reconciled
    pub payment_made : Paid external_sink w r.1

  conclude-Purchased :
      (status : ProviderStatusResult) (report : PurchaseVerificationReport) (w : World)
      → w.operation.state ≡ reconciling
      → Unclashed w.operation w.operations
      → any (pays_out w.operation) w.ledger.entries ≡ false
      → Accepts escrow external_sink w.operation.amount
          (or_else (some (payout_tx lib reason_of w.operation)) s.uuid)
          w.ledger
      → Purchased w (conclude lib reason_of s now status report verified w)
  unfolding conclude
  conclude-Purchased status report w state free new accepts =
      let pays =
        payment-Paid s (or_else (some (payout_tx lib reason_of w.operation)) s.uuid) external_sink
          (str_append "Orbio purchase reconciliation settlement for " w.operation.id) w refl in
      rw (settle_success-pays status w state free new accepts) (record {
        outcome = _;
        returned = refl;
        action = refl;
        state = refl;
        payment_made = record {
          balances = pays.balances;
          minted = pays.minted;
          treasury_balance = pays.treasury_balance;
        };
      })

  module _ (with_reference : String → String → Option String → StatusReply)
      (without : String → String → StatusReply)
      (evidence_of : ProviderStatusResult
        → ConsequentialOperation
        → Result (Option OrbioPurchaseEvidence))
      (stored_hash : String → Option String) (i : OrbioPurchaseIntent) (org : Organisation)
      (w : World) where
    -- A purchase of the organisation, of this intent, that waits for reconciliation and is not paid.
    pub record IsWaiting : Type 0 where
      pub own :
          is_foreign lib reason_of with_reference without evidence_of stored_hash i org w.operation
          ≡ false
      pub purchase : is_purchase w.operation ≡ true
      pub unresolved : is_unresolved w.operation.state ≡ true
      pub bound :
          is_unexpected (stored_hash w.operation.parameters) (compute_purchase_intent_hash lib i)
          ≡ false
      pub unclashed : Unclashed w.operation w.operations
      pub unpaid : any (pays_out w.operation) w.ledger.entries ≡ false
      pub funded :
          Accepts escrow external_sink w.operation.amount
            (or_else (some (payout_tx lib reason_of w.operation)) s.uuid)
            w.ledger

    -- The provider answers SUCCESS for the operation, with evidence that matches the intent.
    pub record IsEvidenced (status : ProviderStatusResult) (e : OrbioPurchaseEvidence)
        : Type 0 where
      pub answers :
          (o : ConsequentialOperation)
          → o.id ≡ w.operation.id
          → query_status with_reference without o ≡ ok status
      pub success : status.outcome ≡ "SUCCESS"
      pub extracted :
          (o : ConsequentialOperation)
          → o.tenant_id ≡ w.operation.tenant_id
          → o.organisation_id ≡ w.operation.organisation_id
          → evidence_of status o ≡ ok (some e)
      pub matches : Matches lib i e status.provider_reference

    -- From the provider's answer on.
    concluded-Purchased :
        (known : Dict String) (status : ProviderStatusResult) (e : OrbioPurchaseEvidence)
        (w1 : World)
        → IsWaiting
        → Advanced reconciling w w1
        → status.outcome ≡ "SUCCESS"
        → Matches lib i e status.provider_reference
        → ((r : String)
            → lookup (compute_purchase_intent_hash lib i) known ≡ some r
            → r ≡ e.provider_reference)
        → let report =
            (verify lib i (some e) (some status.outcome) status.provider_reference known).0 in
          Purchased w (conclude lib reason_of s now status report report.result w1)
    concluded-Purchased known status e w1 waits adv success matches same =
        let verdict =
          verify-verified lib i e status.outcome status.provider_reference known success matches
            same in
        let unpaid : any (pays_out w1.operation) w1.ledger.entries ≡ false =
          rw adv.id (rw adv.ledger waits.unpaid) in
        let funded : Accepts escrow external_sink w1.operation.amount
            (or_else (some (payout_tx lib reason_of w1.operation)) s.uuid) w1.ledger =
          rw adv.ledger (rw adv.amount (rw adv.id waits.funded)) in
        let end =
          conclude-Purchased status
            (verify lib i (some e) (some status.outcome) status.provider_reference known).0 w1
            adv.state adv.unclashed unpaid funded in
        rw verdict (record {
          outcome = end.outcome;
          returned = end.returned;
          action = end.action;
          state = end.state;
          payment_made =
              Paid-between external_sink w w1 _ _ adv.ledger adv.amount refl refl end.payment_made;
        })

    -- A waiting purchase for which the provider reports SUCCESS with matching evidence, and whose intent
    -- was not verified under another reference: the reconciliation returns, the amount goes from escrow
    -- to the external sink and nowhere else, and the operation is RECONCILED.
    pub reconcile-Purchased :
        (known : Dict String) (status : ProviderStatusResult) (e : OrbioPurchaseEvidence)
        → IsWaiting
        → IsEvidenced status e
        → ((r : String)
            → lookup (compute_purchase_intent_hash lib i) known ≡ some r
            → r ≡ e.provider_reference)
        → Purchased w
            (reconcile lib reason_of with_reference without evidence_of stored_hash i org s now w
              known).0
    unfolding reconcile
    reconcile-Purchased known status e waits evidenced same =
        let (w1, (begun, adv)) =
          reconciling-Advanced actor "ORBIO_PURCHASE_RECONCILING"
            (λ op.
              ("operation_id", text op.id)
              ∷ ("intent_hash", text (compute_purchase_intent_hash lib i))
              ∷ [])
            now w waits.unresolved waits.unclashed in
        let asked : ask lib reason_of with_reference without evidence_of stored_hash i org now w
            ≡ (ok status, w1) =
          then_ok (start lib reason_of now i)
            (λ v. (query_status with_reference without v.operation, v)) w begun
          ∙ ap (λ q. (q, w1)) (evidenced.answers w1.operation adv.id) in
        let waiting : is_terminal w.operation.state ≡ false = ground (arith, waits.unresolved) in
        let extracted = evidenced.extracted w1.operation adv.tenant_id adv.organisation_id in
        let end =
          concluded-Purchased known status e w1 waits adv evidenced.success evidenced.matches
            same in
        rw waits.own (
          rw waits.purchase
            (rw waiting (rw waits.unresolved (rw waits.bound (rw asked (rw extracted end))))))
