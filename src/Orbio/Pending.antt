-- ===== src/Orbio/Pending.antt =====
-- A purchase whose outcome the provider does not know.
use kalyx_mao_engine.Base.{
  ℕ, String, Bool, true, false, ◌≡◌, refl, Option, none, some, [], ◌∷◌, not, inl, inr, Bool-cases,
  if◌then◌else◌, arith, str_eq, eq_iff,
}
use kalyx_mao_engine.Base.Dict.{Dict}
use kalyx_mao_engine.Base.Outcome.{Error, Result, ok, err, unauthorized, reconciliation_error}
use kalyx_mao_engine.Ledger.{Stamp}
use kalyx_mao_engine.Entities.{Organisation}
use kalyx_mao_engine.Operation.{ConsequentialOperation, is_state, reconciling}
use kalyx_mao_engine.Execution.State.{text, flag, World, Exec, proceed, in_hand, save}
use kalyx_mao_engine.Execution.Reconciliation.{
  ProviderStatusResult, StatusReply, query_status, is_terminal, is_unresolved,
}
use kalyx_mao_engine.Orbio.Intents.{OrbioPurchaseIntent, Digests, compute_purchase_intent_hash}
use kalyx_mao_engine.Orbio.Verifier.{
  OrbioPurchaseEvidence, PurchaseVerificationReport, pending_evidence, is_unsettled, verify,
  is_unexpected,
}
use kalyx_mao_engine.Orbio.Reconciliation.{
  PurchaseReconciliationOutcome, purchase_event, outcome_of, untouched, stay_pending, conclude,
  start, is_foreign, is_purchase, ask, conclude_on, verify_and_conclude, reconcile,
}
use kalyx_mao_engine.Orbio.Money.{
  SameMoney, KeepsMoney, same_money, then_money, >>=-KeepsMoney, if-SameMoney, move_to-KeepsMoney,
  save-KeepsMoney, advance-KeepsMoney,
}

module _ (lib : Digests) (i : OrbioPurchaseIntent) where
  unsettled_no_success :
      (outcome : String) → is_unsettled lib i outcome ≡ true → str_eq outcome "SUCCESS" ≡ false
  unsettled_no_success outcome h = elim (Bool-cases (str_eq outcome "TIMEOUT")) [
    | inl timeout ↦
        let eq : outcome ≡ "TIMEOUT" = ground (arith, timeout, eq_iff outcome "TIMEOUT") in
        rw eq refl
    | inr other ↦
        let eq : outcome ≡ "UNKNOWN" = ground (arith, h, other, eq_iff outcome "UNKNOWN") in
        rw eq refl
  ]

  -- No verdict is reached on an outcome that is not settled, and no reference is recorded.
  verify-pending :
      (evidence : Option OrbioPurchaseEvidence) (outcome : String) (expected : Option String)
      (known : Dict String)
      → is_unsettled lib i outcome ≡ true
      → ((verify lib i evidence (some outcome) expected known).0.result ≡ pending_evidence)
        × ((verify lib i evidence (some outcome) expected known).1 ≡ known)
  unfolding verify
  verify-pending none outcome expected known h = rw h (refl, refl)
  verify-pending (some e) outcome expected known h =
      rw (unsettled_no_success outcome h) (rw h (refl, refl))

  -- The provider has no answer, or one that is not settled.
  abbrev pub Unsettled : Result ProviderStatusResult → Type 0
  Unsettled (err e) = Unit {0}
  Unsettled (ok status) = is_unsettled lib i status.outcome ≡ true

-- Neither the money nor the recorded references have changed.
pub record Untouched {ℓ} {A : Type ℓ} (w : World) (known : Dict String)
    (out : (Result A × World) × Dict String) : Type 0 where
  pub money : SameMoney w out.0.1
  pub references : out.1 ≡ known

if-Untouched {ℓ} :
    {A : Type ℓ} (w : World) (known : Dict String) (b : Bool)
    (r r' : (Result A × World) × Dict String)
    → Untouched w known r
    → Untouched w known r'
    → Untouched w known (if b then r else r')
if-Untouched w known true r r' h h' = h
if-Untouched w known false r r' h h' = h'

module _ (lib : Digests) (reason_of : PurchaseVerificationReport → String) where
  stay_pending-KeepsMoney :
      (now : ℕ) (status : ProviderStatusResult) (report : PurchaseVerificationReport)
      → KeepsMoney (stay_pending lib reason_of now status report)
  unfolding stay_pending
  stay_pending-KeepsMoney now status report =
      >>=-KeepsMoney in_hand _ (record { keeps = same_money })
        λ op. >>=-KeepsMoney _ _ (move_to-KeepsMoney _) λ _.
          >>=-KeepsMoney save (λ _. event) save-KeepsMoney
            λ _. record { keeps = λ w. record { ledger = refl; treasury = refl } }
    where
      event : Exec (Unit {0})
      event =
          purchase_event lib reason_of "ORBIO_PURCHASE_RECONCILIATION_PENDING" report
            (("provider_outcome", text status.outcome) ∷ ("escrow_locked", flag true) ∷ [])

  conclude-KeepsMoney :
      (s : Stamp) (now : ℕ) (status : ProviderStatusResult) (report : PurchaseVerificationReport)
      → KeepsMoney (conclude lib reason_of s now status report pending_evidence)
  unfolding conclude
  conclude-KeepsMoney s now status report =
      >>=-KeepsMoney (stay_pending lib reason_of now status report)
        (λ _. outcome_of (some report) untouched) (stay_pending-KeepsMoney now status report)
        λ _. record { keeps = same_money }

  start-KeepsMoney : (now : ℕ) (i : OrbioPurchaseIntent) → KeepsMoney (start lib reason_of now i)
  start-KeepsMoney now i = record {
    keeps = λ w.
        if-SameMoney w (is_state w.operation.state reconciling) _ _ (same_money w)
          ((advance-KeepsMoney _ _ _ _).keeps w);
  }

  module _ (with_reference : String → String → Option String → StatusReply)
      (without : String → String → StatusReply)
      (evidence_of : ProviderStatusResult
        → ConsequentialOperation
        → Result (Option OrbioPurchaseEvidence))
      (stored_hash : String → Option String) (i : OrbioPurchaseIntent) (org : Organisation)
      (s : Stamp) (now : ℕ) where
    ask-KeepsMoney :
        KeepsMoney (ask lib reason_of with_reference without evidence_of stored_hash i org now)
    ask-KeepsMoney =
        >>=-KeepsMoney (start lib reason_of now i) (λ _. status_asked) (start-KeepsMoney now i)
          λ _. record { keeps = same_money }
      where
        status_asked : Exec ProviderStatusResult
        status_asked w = (query_status with_reference without w.operation, w)

    module _
        (unsettled : (op : ConsequentialOperation)
          → Unsettled lib i (query_status with_reference without op)) where
      asked-Unsettled :
          (w : World)
          → Unsettled lib i
              (ask lib reason_of with_reference without evidence_of stored_hash i org now w).0
      asked-Unsettled w = go (start lib reason_of now i w)
        where
          go :
              (r : Result (Unit {0}) × World)
              → Unsettled lib i
                  (proceed r (λ _ w'. (query_status with_reference without w'.operation, w'))).0
          go (ok a, w') = unsettled w'.operation
          go (err e, w') = tt

      conclude_on-Untouched :
          (w : World) (known : Dict String) (status : ProviderStatusResult) (w' : World)
          (evidence : Result (Option OrbioPurchaseEvidence))
          → SameMoney w w'
          → is_unsettled lib i status.outcome ≡ true
          → Untouched w known (conclude_on lib reason_of i s now status w' known evidence)
      conclude_on-Untouched w known status w' (err e) same h = record {
        money = same;
        references = refl;
      }
      conclude_on-Untouched w known status w' (ok evidence) same h =
          let (pending, kept) =
            verify-pending lib i evidence status.outcome status.provider_reference known h in
          record {
            money = then_money same (rw pending ((conclude-KeepsMoney s now status _).keeps w'));
            references = kept;
          }

      verify_and_conclude-Untouched :
          (w : World) (known : Dict String) (asked : Result ProviderStatusResult × World)
          → SameMoney w asked.1
          → Unsettled lib i asked.0
          → Untouched w known (
              verify_and_conclude lib reason_of with_reference without evidence_of stored_hash i org
                s now asked known)
      verify_and_conclude-Untouched w known (err e, w') same _ = record {
        money = same;
        references = refl;
      }
      verify_and_conclude-Untouched w known (ok status, w') same h =
          conclude_on-Untouched w known status w' (evidence_of status w'.operation) same h

      -- Where the provider's status is TIMEOUT, UNKNOWN or not to be had, a reconciliation moves no
      -- credits, whatever evidence there is, and records no reference.
      pub reconcile-Untouched :
          (w : World) (known : Dict String)
          → Untouched w known (
              reconcile lib reason_of with_reference without evidence_of stored_hash i org s now w
                known)
      unfolding reconcile
      reconcile-Untouched w known =
          let refused : (e : Error)
              → Untouched {A = PurchaseReconciliationOutcome} w known ((err e, w), known) =
            λ e. record { money = same_money w; references = refl } in
          if-Untouched w known
            (is_foreign lib reason_of with_reference without evidence_of stored_hash i org
              w.operation)
            _ _ (refused unauthorized)
            (if-Untouched w known (not (is_purchase w.operation)) _ _ (refused reconciliation_error)
              (if-Untouched w known (is_terminal w.operation.state) _ _
                (record { money = same_money w; references = refl })
                (if-Untouched w known (not (is_unresolved w.operation.state)) _ _
                  (refused reconciliation_error)
                  (if-Untouched w known
                    (is_unexpected (stored_hash w.operation.parameters)
                      (compute_purchase_intent_hash lib i))
                    _ _ (refused reconciliation_error)
                    (verify_and_conclude-Untouched w known _ (ask-KeepsMoney.keeps w)
                      (asked-Unsettled w))))))
