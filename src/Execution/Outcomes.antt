-- ===== src/Execution/Outcomes.antt =====
-- What a call of `reconcile_operation` does, from the table to the ledger.
use kalyx_mao_engine.Base.{
  ℕ, String, true, false, List, ◌≡◌, ◌⊎◌, refl, ap, ◌∙◌, Option, some, str_eq, str_append, or_else,
  inl, inr,
}
use kalyx_mao_engine.Base.Int.{leb_ℤ}
use kalyx_mao_engine.Base.Outcome.{Result, ok}
use kalyx_mao_engine.Ledger.{Stamp, LedgerEntry, escrow, external_sink, get_balance, entry_of}
use kalyx_mao_engine.Ledger.Invariant.{balance-record_transfer}
use kalyx_mao_engine.Ledger.Methods.{Accepts}
use kalyx_mao_engine.Entities.{Organisation}
use kalyx_mao_engine.Operation.{unknown, reconciling, reconciled, ConsequentialOperation}
use kalyx_mao_engine.Execution.State.{World, in_hand}
use kalyx_mao_engine.Execution.Steps.{Unclashed, Advanced, Advanced-trans, advance_then, paid}
use kalyx_mao_engine.Execution.Submission.{Paid}
use kalyx_mao_engine.Execution.Reconciliation.{
  ProviderStatusResult, StatusReply, query_status, already_settled, settlement_tx, confirm_success,
  stay_unknown, resolve, reconcile_operation,
}
use kalyx_mao_engine.Execution.Recovery.{
  Reconciled, IsPending, taken, reconcile_starts, settle_once-paid, settle_once-skips,
  confirm_success-Reconciled,
}

-- A settlement is known by the id and the amount of its operation.
already_settled-same :
    (o o' : ConsequentialOperation) (tx : String) (entries : List LedgerEntry)
    → o'.id ≡ o.id
    → o'.amount ≡ o.amount
    → already_settled o' tx entries ≡ already_settled o tx entries
unfolding already_settled
already_settled-same o o' tx entries i a = rw i (rw a refl)

pub payment-Paid :
    (s : Stamp) (tx destination memo : String) (w : World)
    → str_eq escrow destination ≡ false
    → Paid destination w (paid (entry_of s tx escrow destination w.operation.amount memo) w)
payment-Paid s tx destination memo w apart = record {
  balances = λ a.
      balance-record_transfer (entry_of s tx escrow destination w.operation.amount memo) w.ledger a
        apart;
  minted = refl;
  treasury_balance = refl;
}

-- Steps before and after a payment that leave the ledger as it was.
pub Paid-between :
    (destination : String) (w w1 w2 w3 : World)
    → w1.ledger ≡ w.ledger
    → w1.operation.amount ≡ w.operation.amount
    → w3.ledger ≡ w2.ledger
    → w3.treasury_balance ≡ w2.treasury_balance
    → Paid destination w1 w2
    → Paid destination w w3
Paid-between destination w w1 w2 w3 before amount after treasury_same h = record {
  balances = rw after (rw amount at (rw before at h.balances));
  minted = rw after (rw before at h.minted);
  treasury_balance = treasury_same ∙ rw after h.treasury_balance;
}

stays :
    (now : ℕ) (w : World)
    → w.operation.state ≡ reconciling
    → Unclashed w.operation w.operations
    → (w' : World) × ((stay_unknown now w ≡ (ok w'.operation, w')) × Advanced unknown w w')
unfolding stay_unknown
stays now w state free = advance_then _ _ _ _ in_hand w (rw state refl) free

module _ (sha256 : String → String) (with_reference : String → String → Option String → StatusReply)
    (without : String → String → StatusReply) (s : Stamp) (now : ℕ) (org : Organisation)
    (id : String) (op : ConsequentialOperation) (w : World) where
  -- The provider's answer on the operation, as the service reads it.
  abbrev pub Answers : ProviderStatusResult → Type 0
  Answers r =
      (o : ConsequentialOperation) → o.id ≡ op.id → query_status with_reference without o ≡ ok r

  abbrev pub call : Result ConsequentialOperation × World
  call = reconcile_operation sha256 with_reference without s now org id w

  resolved :
      (r : ProviderStatusResult)
      → IsPending org id op w
      → Answers r
      → (w1 : World) × ((call ≡ resolve sha256 s now (ok r) w1)
          × Advanced reconciling (taken op w) w1)
  resolved r h answers =
      let (w1, (e, adv)) = reconcile_starts sha256 with_reference without s now org id op w h in
      (w1, (e ∙ ap (λ q. resolve sha256 s now q w1) (answers w1.operation adv.id), adv))

  resolve-success :
      (r : ProviderStatusResult) (w1 : World)
      → str_eq r.outcome "SUCCESS" ≡ true
      → resolve sha256 s now (ok r) w1 ≡ confirm_success sha256 s now r w1
  unfolding resolve
  resolve-success r w1 h = simp h

  resolve-other :
      (r : ProviderStatusResult) (w1 : World)
      → str_eq r.outcome "SUCCESS" ≡ false
      → str_eq r.outcome "FAILURE" ≡ false
      → resolve sha256 s now (ok r) w1 ≡ stay_unknown now w1
  unfolding resolve
  resolve-other r w1 h h' = simp (h, h')

  -- If the provider reports that a pending operation took effect, and the ledger shows no settlement
  -- of it and accepts the payment, then `reconcile_operation` moves the operation's amount from
  -- escrow to the external sink and nowhere else, and returns the operation RECONCILED.
  pub reconcile-settles :
      (r : ProviderStatusResult)
      → IsPending org id op w
      → Answers r
      → str_eq r.outcome "SUCCESS" ≡ true
      → already_settled op (settlement_tx sha256 op) w.ledger.entries ≡ false
      → Accepts escrow external_sink op.amount
          (or_else (some (settlement_tx sha256 op)) s.uuid)
          w.ledger
      → (done : ConsequentialOperation) × (call.0 ≡ ok done)
        × (done.state ≡ reconciled)
        × Paid external_sink (taken op w) call.1
  reconcile-settles r h answers success new accepts =
      let (w1, (e, adv)) = resolved r h answers in
      let unpaid : already_settled w1.operation (settlement_tx sha256 w1.operation)
            w1.ledger.entries
          ≡ false =
        already_settled-same op w1.operation _ _ adv.id adv.amount
        ∙ rw adv.id (rw adv.ledger new) in
      let accepted : Accepts escrow external_sink w1.operation.amount
          (or_else (some (settlement_tx sha256 w1.operation)) s.uuid) w1.ledger =
        rw adv.ledger (rw adv.amount (rw adv.id accepts)) in
      let payment : LedgerEntry =
        entry_of s (or_else (some (settlement_tx sha256 w1.operation)) s.uuid) escrow external_sink
          w1.operation.amount
          (str_append "Reconciliation settlement for operation " w1.operation.id) in
      let end =
        confirm_success-Reconciled sha256 s now r w1 (paid payment w1)
          (settle_once-paid sha256 s w1 unpaid accepted) adv.state adv.unclashed in
      rw (e ∙ resolve-success r w1 success) (
        end.operation,
        end.returned,
        end.state,
        Paid-between external_sink (taken op w) w1 (paid payment w1) _ adv.ledger adv.amount
            end.ledger end.treasury_balance (payment-Paid s _ external_sink _ w1 refl),
      )

  -- If the provider reports that a pending operation took effect, but the ledger shows a settlement
  -- of it or escrow holds less than its amount, then `reconcile_operation` returns it RECONCILED and
  -- leaves the ledger as it was.
  pub reconcile-settled :
      (r : ProviderStatusResult)
      → IsPending org id op w
      → Answers r
      → str_eq r.outcome "SUCCESS" ≡ true
      → (already_settled op (settlement_tx sha256 op) w.ledger.entries ≡ true)
        ⊎ (leb_ℤ op.amount (get_balance w.ledger escrow) ≡ false)
      → Reconciled (taken op w) call
  reconcile-settled r h answers success skip =
      let (w1, (e, adv)) = resolved r h answers in
      let skip1 : (already_settled w1.operation (settlement_tx sha256 w1.operation)
              w1.ledger.entries
            ≡ true)
          ⊎ (leb_ℤ w1.operation.amount (get_balance w1.ledger escrow) ≡ false) =
        elim skip [
          | inl settled ↦ inl (
              already_settled-same op w1.operation _ _ adv.id adv.amount
              ∙ rw adv.id (rw adv.ledger settled))
          | inr short ↦ inr (rw adv.amount (rw adv.ledger short))
        ] in
      let end =
        confirm_success-Reconciled sha256 s now r w1 w1 (settle_once-skips sha256 s w1 skip1)
          adv.state adv.unclashed in
      rw (e ∙ resolve-success r w1 success) (record {
        operation = end.operation;
        returned = end.returned;
        state = end.state;
        ledger = end.ledger ∙ adv.ledger;
        treasury_balance = end.treasury_balance ∙ adv.treasury_balance;
      })

  -- If the provider's answer is neither SUCCESS nor FAILURE, `reconcile_operation` returns the
  -- operation UNKNOWN and leaves the ledger as it was, the credits in escrow.
  pub reconcile-unresolved :
      (r : ProviderStatusResult)
      → IsPending org id op w
      → Answers r
      → str_eq r.outcome "SUCCESS" ≡ false
      → str_eq r.outcome "FAILURE" ≡ false
      → (w' : World) × ((call ≡ (ok w'.operation, w')) × Advanced unknown (taken op w) w')
  reconcile-unresolved r h answers no_success no_failure =
      let (w1, (e, adv)) = resolved r h answers in
      let (w', (e', adv')) = stays now w1 adv.state adv.unclashed in
      (w', (e ∙ resolve-other r w1 no_success no_failure ∙ e', Advanced-trans adv adv'))
