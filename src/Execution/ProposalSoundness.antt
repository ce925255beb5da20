-- ===== src/Execution/ProposalSoundness.antt =====
-- `execute_proposal` keeps every ledger sound, on every path.
use kalyx_mao_engine.Base.{
  ℕ, String, Bool, Option, none, some, not, str_eq, ◌||◌, is_empty, or_else, if◌then◌else◌,
}
use kalyx_mao_engine.Base.Outcome.{
  Result, ok, err, duplicate_transaction, nonpositive_amount, same_account, insufficient_credits,
  integrity_transaction_id, integrity_entry_id, invalid_transition, policy_violation, unauthorized,
  external_execution, idempotency_conflict, idempotency_in_progress, token_already_consumed,
  missing_argument, reconciliation_error, integrity_operation_key, provider_error, value_error,
  permission_error,
}
use kalyx_mao_engine.Entities.{
  ActionProposal, PolicyDecision, Organisation, AuthorizationTokenClaims,
}
use kalyx_mao_engine.Operation.{
  OperationState, created, authorized, escrowed, succeeded, ConsequentialOperation, is_state,
}
use kalyx_mao_engine.Journal.Token.{Consumptions}
use kalyx_mao_engine.Policy.Engine.{Library, PolicyEngine}
use kalyx_mao_engine.Execution.State.{World, Exec}
use kalyx_mao_engine.Execution.Manager.{advance, Dispatch}
use kalyx_mao_engine.Execution.Soundness.{
  KeepsSound, >>=-KeepsSound, if-IsSound, advance-KeepsSound, escrow_operation-KeepsSound,
  submit_operation-KeepsSound, move_to-KeepsSound, save-KeepsSound,
}
use kalyx_mao_engine.Execution.Proposals.{
  Request, register, by_key, key_of, operation_of, admits, is_approved, create_operation, consumed,
  consume_claims, consume_token, authorize_operation, if_state, is_unsettled, finish, replayed,
  continue_operation, execute_proposal,
}

when-KeepsSound {ℓ} :
    {A : Type ℓ} (b : World → Bool) (m m' : Exec A)
    → KeepsSound m
    → KeepsSound m'
    → KeepsSound (λ w. if b w then m w else m' w)
when-KeepsSound b m m' k k' = record {
  keeps = λ n w h. if-IsSound n (b w) (m w) (m' w) (k.keeps n w h) (k'.keeps n w h);
}

still-KeepsSound {ℓ} : {A : Type ℓ} (r : World → Result A) → KeepsSound (λ w. (r w, w))
still-KeepsSound r = record { keeps = λ n w h. h }

module _ (lib : Library) (json : ConsequentialOperation → String) (engine : PolicyEngine) where
  if_state-KeepsSound :
      (s : OperationState) (m : Exec (Unit {0}))
      → KeepsSound m
      → KeepsSound (if_state lib json engine s m)
  if_state-KeepsSound s m k =
      when-KeepsSound (λ x. is_state x.operation.state s) _ _ k (still-KeepsSound (λ x. ok tt))

  register-KeepsSound :
      (op : ConsequentialOperation) (o : Option ConsequentialOperation)
      → KeepsSound (register lib json engine op o)
  register-KeepsSound op (some existing) =
      when-KeepsSound
        (λ x.
          not (str_eq existing.tenant_id op.tenant_id)
          || not (str_eq existing.organisation_id op.organisation_id))
        _ _ (still-KeepsSound (λ x. err unauthorized))
        (when-KeepsSound (λ x. not (str_eq (lib.sha256 (json existing)) (lib.sha256 (json op)))) _
          (λ x. (ok tt, record x { operation = existing }))
          (still-KeepsSound (λ x. err idempotency_conflict)) (record { keeps = λ n w h. h }))
  register-KeepsSound op none =
      let work = >>=-KeepsSound _ _ save-KeepsSound λ _. record { keeps = λ n w h. h } in
      record { keeps = λ n w h. work.keeps n (record w { operation = op }) h }

  consumed-KeepsSound :
      (now : ℕ) (r : Result Consumptions) → KeepsSound (consumed lib json engine now r)
  consumed-KeepsSound now (ok rows) = record { keeps = λ n w h. h }
  consumed-KeepsSound now (err token_already_consumed) =
      >>=-KeepsSound _ _ (move_to-KeepsSound _)
        λ _. >>=-KeepsSound _ _ save-KeepsSound λ _. record { keeps = λ n w h. h }
  consumed-KeepsSound now (err duplicate_transaction) = record { keeps = λ n w h. h }
  consumed-KeepsSound now (err nonpositive_amount) = record { keeps = λ n w h. h }
  consumed-KeepsSound now (err same_account) = record { keeps = λ n w h. h }
  consumed-KeepsSound now (err insufficient_credits) = record { keeps = λ n w h. h }
  consumed-KeepsSound now (err integrity_transaction_id) = record { keeps = λ n w h. h }
  consumed-KeepsSound now (err integrity_entry_id) = record { keeps = λ n w h. h }
  consumed-KeepsSound now (err invalid_transition) = record { keeps = λ n w h. h }
  consumed-KeepsSound now (err policy_violation) = record { keeps = λ n w h. h }
  consumed-KeepsSound now (err unauthorized) = record { keeps = λ n w h. h }
  consumed-KeepsSound now (err external_execution) = record { keeps = λ n w h. h }
  consumed-KeepsSound now (err idempotency_conflict) = record { keeps = λ n w h. h }
  consumed-KeepsSound now (err idempotency_in_progress) = record { keeps = λ n w h. h }
  consumed-KeepsSound now (err missing_argument) = record { keeps = λ n w h. h }
  consumed-KeepsSound now (err reconciliation_error) = record { keeps = λ n w h. h }
  consumed-KeepsSound now (err integrity_operation_key) = record { keeps = λ n w h. h }
  consumed-KeepsSound now (err provider_error) = record { keeps = λ n w h. h }
  consumed-KeepsSound now (err value_error) = record { keeps = λ n w h. h }
  consumed-KeepsSound now (err permission_error) = record { keeps = λ n w h. h }

  module _ (provider : ConsequentialOperation → Dispatch) (q : Request) (p : ActionProposal)
      (decision : PolicyDecision) (org : Organisation) where
    consume_claims-KeepsSound :
        (token : String) (rows : Consumptions) (o : Option AuthorizationTokenClaims)
        → KeepsSound (consume_claims lib json engine q p decision org token rows o)
    consume_claims-KeepsSound token rows none = record { keeps = λ n w h. h }
    consume_claims-KeepsSound token rows (some c) = consumed-KeepsSound q.now _

    consume_token-KeepsSound :
        (token : String) (o : Option Consumptions)
        → KeepsSound (consume_token lib json engine q p decision org token o)
    consume_token-KeepsSound token none = record { keeps = λ n w h. h }
    consume_token-KeepsSound token (some rows) = consume_claims-KeepsSound token rows _

    authorize_operation-KeepsSound :
        KeepsSound (authorize_operation lib json engine q p decision org)
    unfolding authorize_operation
    authorize_operation-KeepsSound =
        when-KeepsSound (λ x. is_empty (or_else decision.authorization_token "")) _ _
          (still-KeepsSound (λ x. err unauthorized))
          (>>=-KeepsSound
            (λ w.
              consume_token lib json engine q p decision org
                (or_else decision.authorization_token "") w.consumptions w)
            (λ _. advance _ _ _ _)
            (record {
              keeps = λ n w h.
                  (consume_token-KeepsSound (or_else decision.authorization_token "")
                      w.consumptions).keeps
                    n w h;
            })
            λ _. advance-KeepsSound _ _ _ _)

    finish-KeepsSound : KeepsSound (finish lib json engine provider q p decision)
    finish-KeepsSound =
        when-KeepsSound (λ x. is_state x.operation.state escrowed) _ _
          (submit_operation-KeepsSound lib.sha256 provider q.moment p decision.authorization_token)
          (still-KeepsSound (λ x. err invalid_transition))

    create_operation-KeepsSound : KeepsSound (create_operation lib json engine q p decision org)
    unfolding create_operation
    create_operation-KeepsSound =
        when-KeepsSound (λ x. not (is_approved decision.result)) _ _
          (still-KeepsSound (λ x. err policy_violation))
          (when-KeepsSound
            (λ x. not (admits lib json engine q p decision org decision.authorization_token)) _
            (λ w.
              register lib json engine (operation_of q p decision org)
                (by_key lib json engine (key_of q p org) w.operations) w)
            (still-KeepsSound (λ x. err unauthorized))
            (record {
              keeps = λ n w h.
                  (register-KeepsSound (operation_of q p decision org)
                      (by_key lib json engine (key_of q p org) w.operations)).keeps
                    n w h;
            }))

    continue_operation-KeepsSound :
        KeepsSound (continue_operation lib json engine provider q p decision org)
    unfolding continue_operation
    continue_operation-KeepsSound =
        let work =
          >>=-KeepsSound _ _ (if_state-KeepsSound created _ authorize_operation-KeepsSound) λ _.
            >>=-KeepsSound _ _
              (if_state-KeepsSound authorized _
                (escrow_operation-KeepsSound lib.sha256 q.lock_stamp q.now))
              λ _. finish-KeepsSound in
        when-KeepsSound (λ x. is_state x.operation.state succeeded) _ _
          (still-KeepsSound (λ x. ok (replayed lib json engine provider q p decision x.operation)))
          (when-KeepsSound (λ x. is_unsettled lib json engine x.operation.state) _ _
            (still-KeepsSound (λ x. err external_execution)) work)

    -- Whatever the decision says, the token journal and the table hold and the provider answers, and
    -- whether `execute_proposal` returns or raises: no account is overdrawn, no credits were created
    -- or lost, and `verify_conservation` still holds.
    pub execute_proposal-KeepsSound :
        KeepsSound (execute_proposal lib json engine provider q p decision org)
    unfolding execute_proposal
    execute_proposal-KeepsSound =
        >>=-KeepsSound _ _ create_operation-KeepsSound λ _. continue_operation-KeepsSound
