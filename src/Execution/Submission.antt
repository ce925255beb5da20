-- ===== src/Execution/Submission.antt =====
-- What `submit_operation` does with the credits in escrow, for each answer of the provider.
use kalyx_mao_engine.Base.{
  String, true, ◌≡◌, refl, ◌∙◌, Option, some, List, any, arith, str_eq, or_else, Bool-cases, inl,
  inr, if◌then◌else◌,
}
use kalyx_mao_engine.Base.Int.{◌+ℤ◌, ◌-ℤ◌}
use kalyx_mao_engine.Base.Outcome.{ok, err, external_execution, invalid_transition}
use kalyx_mao_engine.Ledger.{escrow, treasury, external_sink, get_balance}
use kalyx_mao_engine.Ledger.Invariant.{balance-record_transfer}
use kalyx_mao_engine.Ledger.Methods.{Accepts}
use kalyx_mao_engine.Entities.{ActionProposal}
use kalyx_mao_engine.Operation.{
  escrowed, submitted, succeeded, failed, unknown, ConsequentialOperation, Transition, is_state,
  valid_transitions,
}
use kalyx_mao_engine.Execution.State.{
  World, Field, Exec, ◌>>=◌, ◌>>◌, raises, observe, in_hand, require_state,
}
use kalyx_mao_engine.Execution.Manager.{
  ProviderExecutionResult, Dispatch, transport_exception, answered, ExecutionReceipt, Moment,
  executor, optional, advance, settle, settlement_id, commit, roll_back, leave_unknown, conclude,
  submit_operation, receipt,
}
use kalyx_mao_engine.Execution.Steps.{
  Unclashed, Advanced, Advanced-trans, advance_then, then_ok, require_state-ok, paid, settle-paid,
  settlement_entry,
}

-- How the manager reads the provider's answer.
pub data Verdict : Type 0 where
  success failure ambiguous : Verdict

abbrev pub verdict : Dispatch → Verdict
verdict (transport_exception e) = ambiguous
verdict (answered r) =
    if str_eq r.outcome "SUCCESS"
    then success
    else if str_eq r.outcome "FAILURE"
    then failure
    else ambiguous

-- The credits of the operation went from escrow to the destination.
pub record Paid (destination : String) (w w' : World) : Type 0 where
  pub balances :
      (a : String)
      → get_balance w'.ledger a ≡ (
          if str_eq destination a
          then get_balance w.ledger a +ℤ w.operation.amount
          else if str_eq escrow a
          then get_balance w.ledger a -ℤ w.operation.amount
          else get_balance w.ledger a)
  pub minted : w'.ledger.total_minted ≡ w.ledger.total_minted
  pub treasury_balance : w'.treasury_balance ≡ get_balance w'.ledger treasury

module _ (sha256 : String → String) (m : Moment) (p : ActionProposal) (token : Option String) where
  leave_unknown-keeps :
      (message reference : Option String) (reason : Field) (w : World)
      → w.operation.state ≡ submitted
      → Unclashed w.operation w.operations
      → (w' : World) × ((leave_unknown sha256 m message reference reason w
            ≡ raises external_execution w')
          × Advanced unknown w w')
  unfolding leave_unknown
  leave_unknown-keeps message reference reason w state free =
      advance_then _ _ _ _ (raises external_execution) w (rw state refl) free

  abbrev pub payment_id : String → World → String
  payment_id prefix w = or_else (some (settlement_id sha256 prefix token w.operation)) m.stamp.uuid

  paid-Paid :
      (destination memo prefix : String) (w : World)
      → Accepts escrow destination w.operation.amount (payment_id prefix w) w.ledger
      → Paid destination w
          (paid (settlement_entry sha256 m.stamp destination memo prefix token w.operation) w)
  paid-Paid destination memo prefix w h = record {
    balances = λ a.
        balance-record_transfer
          (settlement_entry sha256 m.stamp destination memo prefix token w.operation) w.ledger a
          h.apart;
    minted = refl;
    treasury_balance = refl;
  }

  -- A payment out of escrow, and a transition after it.
  settle_then :
      (destination memo prefix : String) (t : Transition) (event : String)
      (payload : ConsequentialOperation → List (String × Field)) (end : Exec ExecutionReceipt)
      (w : World)
      → any (is_state t.new_state) (valid_transitions w.operation.state) ≡ true
      → Unclashed w.operation w.operations
      → Accepts escrow destination w.operation.amount (payment_id prefix w) w.ledger
      → (w' : World) × (((settle sha256 m.stamp destination memo prefix token
                >> (advance t executor event payload >> end))
              w
            ≡ end w')
          × (w'.operation.state ≡ t.new_state)
          × (w'.operation.amount ≡ w.operation.amount)
          × Paid destination w w')
  settle_then destination memo prefix t event payload end w allowed free h =
      let e = settlement_entry sha256 m.stamp destination memo prefix token w.operation in
      let rest = advance_then t executor event payload end (paid e w) allowed free in
      let (w', (returned, adv)) = rest in
      let moved = paid-Paid destination memo prefix w h in
      (
        w',
        (
          then_ok (settle sha256 m.stamp destination memo prefix token) _ w
                (settle-paid sha256 m.stamp destination memo prefix token w h)
              ∙ returned,
          adv.state,
          adv.amount,
          record {
            balances = rw adv.ledger moved.balances;
            minted = rw adv.ledger refl;
            treasury_balance = rw adv.ledger (adv.treasury_balance);
          },
        ),
      )

  commit-Paid :
      (r : ProviderExecutionResult) (w : World)
      → w.operation.state ≡ submitted
      → Unclashed w.operation w.operations
      → Accepts escrow external_sink w.operation.amount (payment_id "tx-" w) w.ledger
      → (w' : World) × ((commit sha256 m p token r w
            ≡ (ok (receipt sha256 m p token r w'.operation), w'))
          × (w'.operation.state ≡ succeeded)
          × (w'.operation.amount ≡ w.operation.amount)
          × Paid external_sink w w')
  unfolding commit
  commit-Paid r w state free h =
      settle_then external_sink "Settlement commit for consequential operation " "tx-" _ _ _
        (observe (λ u. receipt sha256 m p token r u.operation)) w (rw state refl) free h

  roll_back-Paid :
      (r : ProviderExecutionResult) (w : World)
      → w.operation.state ≡ submitted
      → Unclashed w.operation w.operations
      → Accepts escrow treasury w.operation.amount (payment_id "rollback-" w) w.ledger
      → (w' : World) × ((roll_back sha256 m token r w ≡ (err external_execution, w'))
          × (w'.operation.state ≡ failed)
          × (w'.operation.amount ≡ w.operation.amount)
          × Paid treasury w w')
  unfolding roll_back
  roll_back-Paid r w state free h =
      settle_then treasury "Escrow rollback for failed consequential operation " "rollback-" _ _ _
        (raises external_execution) w (rw state refl) free h

  -- Each verdict has its ending.
  conclude-commit :
      (d : Dispatch)
      → verdict d ≡ success
      → (r : ProviderExecutionResult) × ((w : World)
          → conclude sha256 m p token d w ≡ commit sha256 m p token r w)
  unfolding conclude
  conclude-commit (transport_exception x) h = cc
  conclude-commit (answered r) h = (
    r,
    λ w. elim (Bool-cases (str_eq r.outcome "SUCCESS")) [
      | inl hit ↦ simp hit
      | inr miss ↦ ground (arith, miss, h)
    ],
  )

  conclude-roll_back :
      (d : Dispatch)
      → verdict d ≡ failure
      → (r : ProviderExecutionResult) × ((w : World)
          → conclude sha256 m p token d w ≡ roll_back sha256 m token r w)
  unfolding conclude
  conclude-roll_back (transport_exception x) h = cc
  conclude-roll_back (answered r) h = (
    r,
    λ w. elim (Bool-cases (str_eq r.outcome "SUCCESS")) [
      | inl hit ↦ ground (arith, hit, h)
      | inr miss ↦ elim (Bool-cases (str_eq r.outcome "FAILURE")) [
        | inl hit ↦ simp (miss, hit)
        | inr none_of ↦ ground (arith, miss, none_of, h)
      ]
    ],
  )

  conclude-leave_unknown :
      (d : Dispatch)
      → verdict d ≡ ambiguous
      → (message reference : Option String) × (reason : Field) × ((w : World)
          → conclude sha256 m p token d w ≡ leave_unknown sha256 m message reference reason w)
  unfolding conclude
  conclude-leave_unknown (transport_exception x) h = (_, _, _, λ w. refl)
  conclude-leave_unknown (answered r) h = (
    some (or_else r.error_message "Provider returned timeout/unknown outcome"),
    r.provider_reference,
    optional r.error_message,
    λ w. elim (Bool-cases (str_eq r.outcome "SUCCESS")) [
      | inl hit ↦ ground (arith, hit, h)
      | inr miss ↦ elim (Bool-cases (str_eq r.outcome "FAILURE")) [
        | inl hit ↦ ground (arith, miss, hit, h)
        | inr none_of ↦ simp (miss, none_of)
      ]
    ],
  )

  module _ (provider : ConsequentialOperation → Dispatch) (w : World) where
    submitted_first :
        w.operation.state ≡ escrowed
        → Unclashed w.operation w.operations
        → (w' : World) × ((submit_operation sha256 provider m p token w
              ≡ conclude sha256 m p token (provider w'.operation) w')
            × Advanced submitted w w')
    unfolding submit_operation
    submitted_first state free =
        let (w', (e, adv)) =
          advance_then _ _ _ _ (in_hand >>= λ op. conclude sha256 m p token (provider op)) w
            (rw state refl) free in
        (
          w',
          (
            then_ok (require_state escrowed invalid_transition) _ w
                  (require_state-ok escrowed invalid_transition w state)
                ∙ e,
            adv,
          ),
        )

    -- If the operation is ESCROWED and no other row holds its key, and the provider raises or answers
    -- neither SUCCESS nor FAILURE, `submit_operation` raises and leaves the operation UNKNOWN, its
    -- credits in escrow: the ledger is as it was.
    pub submit-ambiguous :
        w.operation.state ≡ escrowed
        → Unclashed w.operation w.operations
        → ((op : ConsequentialOperation)
            → op.id ≡ w.operation.id
            → verdict (provider op) ≡ ambiguous)
        → (w' : World) × ((submit_operation sha256 provider m p token w
              ≡ (err external_execution, w'))
            × Advanced unknown w w')
    submit-ambiguous state free answers =
        let (w1, (first, adv)) = submitted_first state free in
        let (message, reference, reason, same) =
          conclude-leave_unknown (provider w1.operation) (answers w1.operation adv.id) in
        let (w', (e, adv')) =
          leave_unknown-keeps message reference reason w1 adv.state adv.unclashed in
        (w', (first ∙ same w1 ∙ e, Advanced-trans adv adv'))

    -- What the ledger tests of a payment is as it was before the submission.
    accepted_after :
        (destination prefix : String) {w' : World}
        → Advanced submitted w w'
        → Accepts escrow destination w.operation.amount (payment_id prefix w) w.ledger
        → Accepts escrow destination w'.operation.amount (payment_id prefix w') w'.ledger
    accepted_after destination prefix adv h = rw adv.ledger (rw adv.amount (rw adv.id h))

    Paid-after :
        (destination : String) {w1 w' : World}
        → Advanced submitted w w1
        → Paid destination w1 w'
        → Paid destination w w'
    Paid-after destination adv h = record {
      balances = rw adv.amount at (rw adv.ledger at h.balances);
      minted = rw adv.ledger at h.minted;
      treasury_balance = h.treasury_balance;
    }

    -- If the operation is ESCROWED and no other row holds its key, the provider answers SUCCESS and the
    -- ledger accepts the payment, `submit_operation` returns a receipt over the operation's amount,
    -- which went from escrow to the external sink and nowhere else, and the operation has SUCCEEDED.
    pub submit-success :
        w.operation.state ≡ escrowed
        → Unclashed w.operation w.operations
        → ((op : ConsequentialOperation) → op.id ≡ w.operation.id → verdict (provider op) ≡ success)
        → Accepts escrow external_sink w.operation.amount (payment_id "tx-" w) w.ledger
        → (w' : World) × (r : ExecutionReceipt) × ((submit_operation sha256 provider m p token w
              ≡ (ok r, w'))
            × (r.cost_credits ≡ w.operation.amount)
            × (w'.operation.state ≡ succeeded)
            × Paid external_sink w w')
    submit-success state free answers accepts =
        let (w1, (first, adv)) = submitted_first state free in
        let (reply, same) = conclude-commit (provider w1.operation) (answers w1.operation adv.id) in
        let (w', (e, done, cost, moved)) =
          commit-Paid reply w1 adv.state adv.unclashed
            (accepted_after external_sink "tx-" adv accepts) in
        (w', _, (first ∙ same w1 ∙ e, cost ∙ adv.amount, done, Paid-after external_sink adv moved))

    -- If the operation is ESCROWED and no other row holds its key, the provider answers FAILURE and the
    -- ledger accepts the refund, `submit_operation` raises, the operation's amount went from escrow to
    -- the treasury and nowhere else, and the operation has FAILED.
    pub submit-failure :
        w.operation.state ≡ escrowed
        → Unclashed w.operation w.operations
        → ((op : ConsequentialOperation) → op.id ≡ w.operation.id → verdict (provider op) ≡ failure)
        → Accepts escrow treasury w.operation.amount (payment_id "rollback-" w) w.ledger
        → (w' : World) × ((submit_operation sha256 provider m p token w
              ≡ (err external_execution, w'))
            × (w'.operation.state ≡ failed)
            × Paid treasury w w')
    submit-failure state free answers accepts =
        let (w1, (first, adv)) = submitted_first state free in
        let (reply, same) =
          conclude-roll_back (provider w1.operation) (answers w1.operation adv.id) in
        let (w', (e, done, cost, moved)) =
          roll_back-Paid reply w1 adv.state adv.unclashed
            (accepted_after treasury "rollback-" adv accepts) in
        (w', (first ∙ same w1 ∙ e, done, Paid-after treasury adv moved))
