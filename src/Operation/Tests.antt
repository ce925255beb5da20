-- ===== src/Operation/Tests.antt =====
-- A full run of an operation, and the theorems of the state machine at concrete inputs.
use kalyx_mao_engine.Base.{ℕ, String, ◌≡◌, refl, Option, none, some, List, [], ◌∷◌}
use kalyx_mao_engine.Base.Int.{pos}
use kalyx_mao_engine.Base.Outcome.{ok}
use kalyx_mao_engine.Operation.{
  OperationState, created, authorized, escrowed, submitted, succeeded, ConsequentialOperation,
  Transition, transition_to,
}
use kalyx_mao_engine.Operation.Routes.{transition_all, targets, success_path}

abbrev fresh : ConsequentialOperation
fresh = record {
  id = "op-1";
  tenant_id = "tenant";
  organisation_id = "org";
  proposal_id = "prop-1";
  decision_id = "dec-1";
  idempotency_key = "key-1";
  action_type = "EXTERNAL_ACTION";
  target = "service";
  parameters = "{}";
  amount = pos 10;
  provider_name = "simulated";
  provider_reference = none;
  state = created;
  error_message = none;
  created_at = 0;
  updated_at = 0;
}

abbrev call : OperationState → Option String → ℕ → Transition
call s reference now = record {
  new_state = s;
  error_message = none;
  provider_reference = reference;
  now = now;
}

abbrev calls : List Transition
calls =
    call authorized none 1
    ∷ call escrowed none 2
    ∷ call submitted none 3
    ∷ call succeeded (some "ref-1") 4
    ∷ []

abbrev done : ConsequentialOperation
done = record fresh { state = succeeded; provider_reference = some "ref-1"; updated_at = 4 }

calls_return : transition_all calls fresh ≡ ok done
unfolding transition_all transition_to
calls_return = refl

success_path_example : targets calls ≡ authorized ∷ escrowed ∷ submitted ∷ succeeded ∷ []
success_path_example = success_path calls fresh refl calls_return refl
