-- ===== src/Operation/Routes.antt =====
-- The ways through the state machine of an operation.
use kalyx_mao_engine.Base.{true, ◌≡◌, ◌⊎◌, ◌↔◌, inl, inr, none, List, [], ◌∷◌, map, any, arith}
use kalyx_mao_engine.Base.Outcome.{Result, ok, err, Result-cases, ◌>>=◌, invalid_transition}
use kalyx_mao_engine.Operation.{
  OperationState, created, authorized, escrowed, submitted, succeeded, failed, unknown, reconciling,
  reconciled, valid_transitions, is_state, ConsequentialOperation, Transition, transition_to,
}

-- A sequence of calls, each on the operation that the one before left.
unfoldable pub transition_all :
    List Transition → ConsequentialOperation → Result ConsequentialOperation
transition_all [] op = ok op
transition_all (t ∷ ts) op = transition_to t op >>= transition_all ts

abbrev pub targets : List Transition → List OperationState
targets = map (λ (t : Transition). t.new_state)

-- What is left of the way from a state to SUCCEEDED.
abbrev WayToSuccess : OperationState → List OperationState → Type 0
WayToSuccess created l = l ≡ authorized ∷ escrowed ∷ submitted ∷ succeeded ∷ []
WayToSuccess authorized l = l ≡ escrowed ∷ submitted ∷ succeeded ∷ []
WayToSuccess escrowed l = l ≡ submitted ∷ succeeded ∷ []
WayToSuccess submitted l = l ≡ succeeded ∷ []
WayToSuccess succeeded l = l ≡ []
WayToSuccess _ l = ⊥

pub is_state→eq : (a b : OperationState) → is_state a b ≡ true → a ≡ b
is_state→eq a b h = ground arith

way_step :
    (s t : OperationState) (l : List OperationState)
    → any (is_state t) (valid_transitions s) ≡ true
    → WayToSuccess t l
    → WayToSuccess s (t ∷ l)
way_step created t l h w = ground arith
way_step authorized t l h w = ground arith
way_step escrowed t l h w = ground arith
way_step submitted t l h w = ground arith
way_step unknown t l h w = ground arith
way_step reconciling t l h w = ground arith
way_step _ t l h w = cc

-- A call of `transition_to` that returns was to a listed state, and sets it.
pub transition_to_inv :
    (t : Transition) (op : ConsequentialOperation) {op' : ConsequentialOperation}
    → transition_to t op ≡ ok op'
    → (any (is_state t.new_state) (valid_transitions op.state) ≡ true) × (op'.state ≡ t.new_state)
unfolding transition_to
transition_to_inv t op h = ground arith

way_of_run :
    (ts : List Transition) (op : ConsequentialOperation) {op' : ConsequentialOperation}
    → transition_all ts op ≡ ok op'
    → op'.state ≡ succeeded
    → WayToSuccess op.state (targets ts)
unfolding transition_all
way_of_run [] op {op' = op'} h done = let same : op.state ≡ succeeded = ground arith in rw same
way_of_run (t ∷ ts) op {op' = op'} h done = elim (Result-cases (transition_to t op)) [
  | inl (next, e) ↦
      let (allowed, moved) = transition_to_inv t op e in
      way_step op.state t.new_state (targets ts) allowed
        (rw (← moved) (way_of_run ts next {op' = op'} (rw e at h) done))
  | inr (x, e) ↦ cc (rw e at h)
]

-- Whatever calls of `transition_to` take a new operation to SUCCEEDED, they are exactly those to
-- AUTHORIZED, ESCROWED, SUBMITTED and SUCCEEDED, in this order.
pub success_path :
    (ts : List Transition) (op : ConsequentialOperation) {op' : ConsequentialOperation}
    → op.state ≡ created
    → transition_all ts op ≡ ok op'
    → op'.state ≡ succeeded
    → targets ts ≡ authorized ∷ escrowed ∷ submitted ∷ succeeded ∷ []
success_path ts op start h done = rw start at (way_of_run ts op h done)

abbrev pub IsFinal : OperationState → Type 0
IsFinal s = (s ≡ succeeded) ⊎ (s ≡ failed) ⊎ (s ≡ reconciled)

-- No call moves an operation that is SUCCEEDED, FAILED or RECONCILED, and no other state is final:
-- there some call returns.
pub IsFinal-iff_stuck :
    (op : ConsequentialOperation)
    → IsFinal op.state ↔ ((t : Transition) → transition_to t op ≡ err invalid_transition)
unfolding transition_to
IsFinal-iff_stuck op = (
  λ h t. ground (arith, h),
  λ stuck. ground (arith, stuck (to failed), stuck (to reconciling), stuck (to unknown)),
)
  where
    to : OperationState → Transition
    to s = record { new_state = s; error_message = none; provider_reference = none; now = 0 }
