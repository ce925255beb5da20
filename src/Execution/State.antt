-- ===== src/Execution/State.antt =====
-- The state that the execution boundary works on, the actions on it, and the repository of
-- operations: `ConsequentialOperationRepository` (src/execution/consequential.py). An action may raise
-- after it has written: what it wrote stays.
use kalyx_mao_engine.Base.{
  String, Bool, Option, none, some, List, [], ◌∷◌, ◌++◌, ◌&&◌, not, any, str_eq, if◌then◌else◌,
}
use kalyx_mao_engine.Base.Int.{ℤ, pos, ltb_ℤ}
use kalyx_mao_engine.Base.Outcome.{Error, Result, ok, err, integrity_operation_key}
use kalyx_mao_engine.Ledger.{Stamp, LedgerEntry, DoubleEntryLedger, treasury, get_balance, transfer}
use kalyx_mao_engine.Operation.{
  OperationState, ConsequentialOperation, Transition, transition_to, is_state,
}
use kalyx_mao_engine.Journal.Token.{Consumptions}

-- A value of an event's payload.
pub data Field : Type 0 where
  text : String → Field
  number : ℤ → Field
  flag : Bool → Field
  absent : Field

pub record Event : Type 0 where
  pub actor_id : String
  pub event_type : String
  pub entity_id : String
  pub payload : List (String × Field)

abbrev pub Operations : Type 0
Operations = List ConsequentialOperation

-- `operation` is the object in hand. The table of operations and the token journal exist where a
-- connection was given, the event store where one was.
pub record World : Type 0 where
  pub ledger : DoubleEntryLedger
  pub treasury_balance : ℤ  -- `org.treasury_balance`
  pub operation : ConsequentialOperation
  pub operations : Option Operations
  pub consumptions : Option Consumptions
  pub events : Option (List Event)

abbrev pub Exec {ℓ} : Type ℓ → Type ℓ
Exec A = World → Result A × World

abbrev pub proceed {ℓ κ} :
    {A : Type ℓ} {B : Type κ} → Result A × World → (A → Exec B) → Result B × World
proceed (ok a, w) f = f a w
proceed (err e, w) f = (err e, w)

infixl 5 ◌>>=◌
abbrev pub ◌>>=◌ {ℓ κ} : {A : Type ℓ} {B : Type κ} → Exec A → (A → Exec B) → Exec B
m >>= f = λ w. proceed (m w) f

infixl 5 ◌>>◌
abbrev pub ◌>>◌ {ℓ} : {B : Type ℓ} → Exec (Unit {0}) → Exec B → Exec B
m >> next = λ w. proceed (m w) (λ _. next)

abbrev pub returns {ℓ} : {A : Type ℓ} → A → Exec A
returns a w = (ok a, w)

abbrev pub raises {ℓ} : {A : Type ℓ} → Error → Exec A
raises e w = (err e, w)

abbrev pub observe {ℓ} : {A : Type ℓ} → (World → A) → Exec A
observe f w = (ok (f w), w)

abbrev pub in_hand : Exec ConsequentialOperation
in_hand = observe (λ w. w.operation)

-- `if operation.state != s: raise InvalidStateTransitionError`
abbrev pub require_state : OperationState → Error → Exec (Unit {0})
require_state s e w = if is_state w.operation.state s then (ok tt, w) else (err e, w)

-- `if operation.amount > 0:`
abbrev pub if_positive : Exec (Unit {0}) → Exec (Unit {0})
if_positive m w = if ltb_ℤ (pos 0) w.operation.amount then m w else (ok tt, w)

abbrev pub set_operation : Result ConsequentialOperation → Exec (Unit {0})
set_operation (ok op) w = (ok tt, record w { operation = op })
set_operation (err e) w = (err e, w)

-- `operation.transition_to(...)`
abbrev pub move_to : Transition → Exec (Unit {0})
move_to t w = set_operation (transition_to t w.operation) w

-- Another row holds the operation's key, which is UNIQUE.
abbrev pub key_clashes : ConsequentialOperation → Operations → Bool
key_clashes op = any (λ r. not (str_eq r.id op.id) && str_eq r.idempotency_key op.idempotency_key)

-- The UPDATE of the row with the operation's id, which keeps `created_at`, or the INSERT.
unfoldable pub put : ConsequentialOperation → Operations → Operations
put op [] = op ∷ []
put op (r ∷ rows) =
    let rest = put op rows in
    if str_eq r.id op.id then (record op { created_at = r.created_at }) ∷ rows else r ∷ rest

abbrev pub save_in : Option Operations → Exec (Unit {0})
save_in none w = (ok tt, w)
save_in (some rows) w =
    if key_clashes w.operation rows
    then (err integrity_operation_key, w)
    else (ok tt, record w { operations = some (put w.operation rows) })

-- `if self.repo is not None: self.repo.save(operation)`
abbrev pub save : Exec (Unit {0})
save w = save_in w.operations w

abbrev append_to : Option (List Event) → Event → Option (List Event)
append_to none e = none
append_to (some es) e = some (es ++ e ∷ [])

-- `if self.event_store is not None: self.event_store.append_event(...)`, on the object in hand.
abbrev pub append_event :
    String → String → (ConsequentialOperation → List (String × Field)) → Exec (Unit {0})
append_event actor type payload w = (
  ok tt,
  record w {
    events = append_to w.events (record {
      actor_id = actor;
      event_type = type;
      entity_id = w.operation.id;
      payload = payload w.operation;
    });
  },
)

abbrev pub set_ledger : Result (LedgerEntry × DoubleEntryLedger) → Exec (Unit {0})
set_ledger (ok (e, l)) w = (ok tt, record w { ledger = l })
set_ledger (err e) w = (err e, w)

-- A transfer of the amount of the object in hand.
abbrev pub transfer_amount : Stamp → String → String → String → String → Exec (Unit {0})
transfer_amount s from to memo tx w =
    set_ledger (transfer s from to w.operation.amount memo (some tx) w.ledger) w

-- `org.treasury_balance = self.ledger.get_balance(TREASURY)`
abbrev pub refresh_treasury : Exec (Unit {0})
refresh_treasury w = (ok tt, record w { treasury_balance = get_balance w.ledger treasury })

-- The row with an id, and the row with a key.
unfoldable pub get : String → Operations → Option ConsequentialOperation
get id [] = none
get id (r ∷ rows) = let rest = get id rows in if str_eq r.id id then some r else rest

unfoldable pub get_by_idempotency_key : String → Operations → Option ConsequentialOperation
get_by_idempotency_key key [] = none
get_by_idempotency_key key (r ∷ rows) =
    let rest = get_by_idempotency_key key rows in
    if str_eq r.idempotency_key key then some r else rest
