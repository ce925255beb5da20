-- ===== src/Operation.antt =====
-- `ConsequentialOperation` and its state machine: `OperationState` (src/domain/enums.py),
-- `VALID_OPERATION_TRANSITIONS` and `transition_to` (src/domain/entities.py).
pub mod Routes
mod Tests
use kalyx_mao_engine.Base.{
  ℕ, String, Bool, Option, none, some, List, [], ◌∷◌, any, ◌==◌, if◌then◌else◌,
}
use kalyx_mao_engine.Base.Int.{ℤ}
use kalyx_mao_engine.Base.Outcome.{Result, ok, err, ◌>>=◌, invalid_transition}

pub data OperationState : Type 0 where
  created authorized escrowed submitted succeeded failed unknown reconciling reconciled :
      OperationState

-- `VALID_OPERATION_TRANSITIONS`
abbrev pub valid_transitions : OperationState → List OperationState
valid_transitions created = authorized ∷ failed ∷ []
valid_transitions authorized = escrowed ∷ failed ∷ []
valid_transitions escrowed = submitted ∷ failed ∷ []
valid_transitions submitted = succeeded ∷ failed ∷ unknown ∷ reconciling ∷ []
valid_transitions unknown = reconciling ∷ []
valid_transitions reconciling = reconciled ∷ unknown ∷ []
valid_transitions succeeded = []
valid_transitions failed = []
valid_transitions reconciled = []

-- The place of a state in the enumeration, by which states are compared.
abbrev pub index : OperationState → ℕ
index created = 0
index authorized = 1
index escrowed = 2
index submitted = 3
index succeeded = 4
index failed = 5
index unknown = 6
index reconciling = 7
index reconciled = 8

abbrev pub is_state : OperationState → OperationState → Bool
is_state a b = index a == index b

pub record ConsequentialOperation : Type 0 where
  pub id : String
  pub tenant_id : String
  pub organisation_id : String
  pub proposal_id : String
  pub decision_id : String
  pub idempotency_key : String
  pub action_type : String
  pub target : String
  pub parameters : String  -- as canonical JSON
  pub amount : ℤ
  pub provider_name : String
  pub provider_reference : Option String
  pub state : OperationState
  pub error_message : Option String
  pub created_at : ℕ
  pub updated_at : ℕ

-- The value given, or the one that stands.
abbrev pub or_keep : Option String → Option String → Option String
or_keep none old = old
or_keep (some new) old = some new

-- The arguments of a call of `transition_to`, with the time that it reads.
pub record Transition : Type 0 where
  pub new_state : OperationState
  pub error_message : Option String
  pub provider_reference : Option String
  pub now : ℕ

unfoldable pub transition_to : Transition → ConsequentialOperation → Result ConsequentialOperation
transition_to t op =
    if any (is_state t.new_state) (valid_transitions op.state)
    then ok (record op {
      state = t.new_state;
      error_message = or_keep t.error_message op.error_message;
      provider_reference = or_keep t.provider_reference op.provider_reference;
      updated_at = t.now;
    })
    else err invalid_transition
