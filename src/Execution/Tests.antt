-- ===== src/Execution/Tests.antt =====
-- The execution boundary at concrete inputs: an operation of 40 credits, which lie in escrow.
use kalyx_mao_engine.Base.{
  String, ◌≡◌, refl, Option, none, some, [], ◌∷◌, arith, or_else, take_chars, inr, is_inside,
}
use kalyx_mao_engine.Base.Int.{pos, ◌+ℤ◌, ◌-ℤ◌}
use kalyx_mao_engine.Base.Dict.{insert, get_or}
use kalyx_mao_engine.Base.Outcome.{Result, ok, err, external_execution}
use kalyx_mao_engine.Ledger.{
  Stamp, LedgerEntry, DoubleEntryLedger, treasury, escrow, external_sink, init, entry_of,
  record_transfer,
}
use kalyx_mao_engine.Ledger.Methods.{Accepts}
use kalyx_mao_engine.Entities.{ActionProposal, Organisation, executing}
use kalyx_mao_engine.Operation.{
  OperationState, escrowed, succeeded, failed, unknown, reconciled, ConsequentialOperation,
}
use kalyx_mao_engine.Execution.State.{World, get}
use kalyx_mao_engine.Execution.Manager.{
  ProviderExecutionResult, Dispatch, transport_exception, answered, ExecutionReceipt, Moment,
  submit_operation,
}
use kalyx_mao_engine.Execution.Steps.{Advanced}
use kalyx_mao_engine.Execution.Submission.{
  Paid, payment_id, submit-ambiguous, submit-success, submit-failure,
}
use kalyx_mao_engine.Execution.Soundness.{KeepsSound}
use kalyx_mao_engine.Execution.Reconciliation.{
  ProviderStatusResult, StatusReply, status_is, type_error, query_status, reconcile_operation,
  already_settled, settlement_tx,
}
use kalyx_mao_engine.Execution.Recovery.{Reconciled, IsPending, taken}
use kalyx_mao_engine.Execution.Outcomes.{reconcile-settles, reconcile-settled}
use kalyx_mao_engine.Execution.ServiceSoundness.{reconcile_operation-KeepsSound}

abbrev digest : String → String
digest text = text

abbrev stamp : String → Stamp
stamp name = record { entry_id = name; uuid = name; now = 0 }

abbrev moment : Moment
moment = record { stamp = stamp "u9"; first_at = 5; last_at = 6; receipt_id = "receipt-1" }

abbrev proposal : ActionProposal
proposal = record {
  id = "prop-1";
  task_id = "task-1";
  proposing_agent_id = "agent-1";
  action_type = "EXTERNAL_API_CALL";
  target = "service";
  parameters = "{}";
  requested_credits = pos 40;
}

abbrev operation : OperationState → ConsequentialOperation
operation s = record {
  id = "op-1";
  tenant_id = "tenant";
  organisation_id = "org";
  proposal_id = "prop-1";
  decision_id = "dec-1";
  idempotency_key = "org:prop-1";
  action_type = "EXTERNAL_API_CALL";
  target = "service";
  parameters = "{}";
  amount = pos 40;
  provider_name = "simulated";
  provider_reference = none;
  state = s;
  error_message = none;
  created_at = 0;
  updated_at = 4;
}

abbrev lock : LedgerEntry
lock =
    entry_of (stamp "u1") "res-op-1" treasury escrow (pos 40)
      "Escrow lock for consequential operation op-1"

abbrev opened : DoubleEntryLedger
opened = init (stamp "u0") (pos 100)

abbrev world : OperationState → DoubleEntryLedger → World
world s l = record {
  ledger = l;
  treasury_balance = pos 60;
  operation = operation s;
  operations = some (operation s ∷ []);
  consumptions = some [];
  events = some [];
}

abbrev held : DoubleEntryLedger
held = record_transfer lock opened

abbrev reply : String → ProviderExecutionResult
reply outcome = record {
  outcome = outcome;
  provider_reference = some "ref-1";
  raw_response = "{}";
  error_message = none;
  evidence_hash = none;
}

abbrev provider : String → ConsequentialOperation → Dispatch
provider outcome op = answered (reply outcome)

abbrev lost : ConsequentialOperation → Dispatch
lost op = transport_exception "timeout"

submit-ambiguous_example :
    (w' : World) × ((submit_operation digest lost moment proposal none (world escrowed held)
        ≡ (err external_execution, w'))
      × Advanced unknown (world escrowed held) w')
submit-ambiguous_example =
    submit-ambiguous digest moment proposal none lost (world escrowed held) refl refl
      (λ op same. refl)

payable :
    Accepts escrow external_sink
      (pos 40)
      (payment_id digest moment proposal none "tx-" (world escrowed held))
      held
unfolding init insert get_or ◌+ℤ◌ ◌-ℤ◌ take_chars
payable = record { fresh = refl; positive = omega arith; apart = refl; funded = omega arith }

submit-success_example :
    (w' : World) × (r : ExecutionReceipt) × ((submit_operation digest
          (provider "SUCCESS")
          moment
          proposal
          none
          (world escrowed held)
        ≡ (ok r, w'))
      × (r.cost_credits ≡ pos 40)
      × (w'.operation.state ≡ succeeded)
      × Paid external_sink (world escrowed held) w')
submit-success_example =
    submit-success digest moment proposal none (provider "SUCCESS") (world escrowed held) refl refl
      (λ op same. refl) payable

refundable :
    Accepts escrow treasury
      (pos 40)
      (payment_id digest moment proposal none "rollback-" (world escrowed held))
      held
unfolding init insert get_or ◌+ℤ◌ ◌-ℤ◌ take_chars
refundable = record { fresh = refl; positive = omega arith; apart = refl; funded = omega arith }

submit-failure_example :
    (w' : World) × ((submit_operation digest
          (provider "FAILURE")
          moment
          proposal
          none
          (world escrowed held)
        ≡ (err external_execution, w'))
      × (w'.operation.state ≡ failed)
      × Paid treasury (world escrowed held) w')
submit-failure_example =
    submit-failure digest moment proposal none (provider "FAILURE") (world escrowed held) refl refl
      (λ op same. refl) refundable

abbrev org : String → Organisation
org id = record {
  id = id;
  tenant_id = "tenant";
  treasury_balance = pos 60;
  state = executing;
  agents = [];
}

abbrev status : String → ProviderStatusResult
status outcome = record {
  outcome = outcome;
  provider_reference = some "ref-1";
  error_message = none;
  evidence_hash = none;
}

abbrev with_reference : String → String → Option String → StatusReply
with_reference id key reference = type_error

abbrev without : String → String → String → StatusReply
without outcome id key = status_is (status outcome)

pending :
    (l : DoubleEntryLedger) → IsPending (org "org") "op-1" (operation unknown) (world unknown l)
unfolding get
pending l = record {
  stored = refl;
  own_tenant = refl;
  own_organisation = refl;
  unresolved = refl;
  unclashed = refl;
}

abbrev reconcile : String → DoubleEntryLedger → Result ConsequentialOperation × World
reconcile outcome l =
    reconcile_operation digest with_reference (without outcome) (stamp "u9") 7 (org "org") "op-1"
      (world unknown l)

settleable :
    Accepts escrow external_sink
      (pos 40)
      (or_else (some (settlement_tx digest (operation unknown))) "u9")
      held
unfolding init insert get_or ◌+ℤ◌ ◌-ℤ◌ take_chars
settleable = record { fresh = refl; positive = omega arith; apart = refl; funded = omega arith }

reconcile-settles_example :
    (done : ConsequentialOperation) × ((reconcile "SUCCESS" held).0 ≡ ok done)
    × (done.state ≡ reconciled)
    × Paid external_sink
        (taken (operation unknown) (world unknown held))
        (reconcile "SUCCESS" held).1
unfolding query_status already_settled init take_chars is_inside
reconcile-settles_example =
    reconcile-settles digest with_reference (without "SUCCESS") (stamp "u9") 7 (org "org") "op-1"
      (operation unknown) (world unknown held) (status "SUCCESS") (pending held) (λ o same. refl)
      refl refl settleable

reconcile-settled_example :
    Reconciled (taken (operation unknown) (world unknown opened)) (reconcile "SUCCESS" opened)
unfolding query_status init insert get_or ◌+ℤ◌ ◌-ℤ◌
reconcile-settled_example =
    reconcile-settled digest with_reference (without "SUCCESS") (stamp "u9") 7 (org "org") "op-1"
      (operation unknown) (world unknown opened) (status "SUCCESS") (pending opened)
      (λ o same. refl) refl (inr refl)

reconcile_operation-KeepsSound_example : KeepsSound (
    reconcile_operation digest with_reference (without "SUCCESS") (stamp "u9") 7 (org "org") "op-1")
reconcile_operation-KeepsSound_example =
    reconcile_operation-KeepsSound digest (stamp "u9") 7 with_reference (without "SUCCESS")
      (org "org") "op-1"
