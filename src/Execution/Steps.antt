-- ===== src/Execution/Steps.antt =====
-- What one step of the boundary does where it returns: a transition with its record, a payment.
use kalyx_mao_engine.Base.{
  String, true, false, ◌≡◌, refl, ap, ◌∙◌, Option, none, some, List, [], ◌∷◌, any, arith,
  str_append, eq_refl, or_else,
}
use kalyx_mao_engine.Base.Int.{pos, ltb_ℤ}
use kalyx_mao_engine.Base.Outcome.{Error, ok, err}
use kalyx_mao_engine.Ledger.{
  Stamp, LedgerEntry, escrow, treasury, entry_of, record_transfer, get_balance,
}
use kalyx_mao_engine.Ledger.Methods.{Accepts, transfer-Accepts}
use kalyx_mao_engine.Operation.{
  OperationState, ConsequentialOperation, Transition, transition_to, valid_transitions, is_state,
  index, or_keep,
}
use kalyx_mao_engine.Execution.State.{
  Field, World, Operations, Exec, key_clashes, put, move_to, save, save_in, append_event, proceed,
  ◌>>◌, require_state,
}
use kalyx_mao_engine.Execution.Manager.{advance, settle, settlement_id}

-- No other row of the table holds the operation's key.
abbrev pub Unclashed : ConsequentialOperation → Option Operations → Type 0
Unclashed op none = Unit
Unclashed op (some rows) = key_clashes op rows ≡ false

key_clashes-put :
    (op op' : ConsequentialOperation) (rows : Operations)
    → op'.id ≡ op.id
    → op'.idempotency_key ≡ op.idempotency_key
    → key_clashes op rows ≡ false
    → key_clashes op' (put op' rows) ≡ false
unfolding put
key_clashes-put op op' [] i k h = rw i (rw k (simp eq_refl))
key_clashes-put op op' (r ∷ rows) i k h =
    ground (arith, key_clashes-put op op' rows i k, eq_refl op.id, h)

-- What `advance` leaves: the operation in its new state, saved, and all else as it was.
pub record Advanced (s : OperationState) (w w' : World) : Type 0 where
  pub ledger : w'.ledger ≡ w.ledger
  pub treasury_balance : w'.treasury_balance ≡ w.treasury_balance
  pub consumptions : w'.consumptions ≡ w.consumptions
  pub state : w'.operation.state ≡ s
  pub id : w'.operation.id ≡ w.operation.id
  pub amount : w'.operation.amount ≡ w.operation.amount
  pub tenant_id : w'.operation.tenant_id ≡ w.operation.tenant_id
  pub organisation_id : w'.operation.organisation_id ≡ w.operation.organisation_id
  pub unclashed : Unclashed w'.operation w'.operations

pub Advanced-trans :
    {s s' : OperationState} {w w1 w' : World}
    → Advanced s w w1
    → Advanced s' w1 w'
    → Advanced s' w w'
Advanced-trans a b = record {
  ledger = b.ledger ∙ a.ledger;
  treasury_balance = b.treasury_balance ∙ a.treasury_balance;
  consumptions = b.consumptions ∙ a.consumptions;
  state = b.state;
  id = b.id ∙ a.id;
  amount = b.amount ∙ a.amount;
  tenant_id = b.tenant_id ∙ a.tenant_id;
  organisation_id = b.organisation_id ∙ a.organisation_id;
  unclashed = b.unclashed;
}

-- An action that returns hands its world to the next.
pub then_ok {ℓ} :
    {B : Type ℓ} (m : Exec (Unit {0})) (next : Exec B) (w : World) {w' : World}
    → m w ≡ (ok tt, w')
    → (m >> next) w ≡ next w'
then_ok m next w h = ap (λ r. proceed r (λ _. next)) h

abbrev pub moved : Transition → ConsequentialOperation → ConsequentialOperation
moved t op = record op {
  state = t.new_state;
  error_message = or_keep t.error_message op.error_message;
  provider_reference = or_keep t.provider_reference op.provider_reference;
  updated_at = t.now;
}

pub move_to-ok :
    (t : Transition) (w : World)
    → any (is_state t.new_state) (valid_transitions w.operation.state) ≡ true
    → move_to t w ≡ (ok tt, record w { operation = moved t w.operation })
unfolding transition_to
move_to-ok t w allowed = simp allowed

abbrev pub stored : ConsequentialOperation → Option Operations → Option Operations
stored op none = none
stored op (some rows) = some (put op rows)

pub save_in-ok :
    (o : Option Operations) (w : World)
    → w.operations ≡ o
    → Unclashed w.operation o
    → save_in o w ≡ (ok tt, record w { operations = stored w.operation o })
save_in-ok none w table free = ap (λ o. (ok tt, record w { operations = o })) table
save_in-ok (some rows) w table free = simp free

stored-Unclashed :
    (o : Option Operations) (op op' : ConsequentialOperation)
    → op'.id ≡ op.id
    → op'.idempotency_key ≡ op.idempotency_key
    → Unclashed op o
    → Unclashed op' (stored op' o)
stored-Unclashed none op op' i k free = tt
stored-Unclashed (some rows) op op' i k free = key_clashes-put op op' rows i k free

module _ (t : Transition) (actor event : String)
    (payload : ConsequentialOperation → List (String × Field)) where
  pub advance-Advanced :
      (w : World)
      → any (is_state t.new_state) (valid_transitions w.operation.state) ≡ true
      → Unclashed w.operation w.operations
      → (w' : World) × ((advance t actor event payload w ≡ (ok tt, w')) × Advanced t.new_state w w')
  unfolding advance
  advance-Advanced w allowed free =
      let op = moved t w.operation in
      let w1 : World = record w { operation = op } in
      (
        _,
        (
          then_ok (move_to t) (save >> append_event actor event payload) w (move_to-ok t w allowed)
              ∙ then_ok save (append_event actor event payload) w1
                  (save_in-ok w.operations w1 refl free),
          record {
            ledger = refl;
            treasury_balance = refl;
            consumptions = refl;
            state = refl;
            id = refl;
            amount = refl;
            tenant_id = refl;
            organisation_id = refl;
            unclashed = stored-Unclashed w.operations w.operation op refl refl free;
          },
        ),
      )

-- A payment out of escrow, of the amount of the object in hand.
abbrev pub paid : LedgerEntry → World → World
paid e w = record w {
  ledger = record_transfer e w.ledger;
  treasury_balance = get_balance (record_transfer e w.ledger) treasury;
}

module _ (sha256 : String → String) (s : Stamp) (destination memo prefix : String)
    (token : Option String) where
  abbrev pub settlement_entry : ConsequentialOperation → LedgerEntry
  settlement_entry op =
      entry_of s (or_else (some (settlement_id sha256 prefix token op)) s.uuid) escrow destination
        op.amount (str_append memo op.id)

  pub settle-paid :
      (w : World)
      → Accepts escrow destination w.operation.amount
          (or_else (some (settlement_id sha256 prefix token w.operation)) s.uuid)
          w.ledger
      → settle sha256 s destination memo prefix token w
        ≡ (ok tt, paid (settlement_entry w.operation) w)
  settle-paid w h =
      let op = w.operation in
      let positive : ltb_ℤ (pos 0) op.amount ≡ true = ground (arith, h.positive) in
      rw positive (
        rw
          (transfer-Accepts s escrow destination op.amount (str_append memo op.id)
            (some (settlement_id sha256 prefix token op)) w.ledger h)
          refl)

-- A step of the boundary, and what follows it.
pub advance_then {ℓ} :
    {B : Type ℓ} (t : Transition) (actor event : String)
    (payload : ConsequentialOperation → List (String × Field)) (next : Exec B) (w : World)
    → any (is_state t.new_state) (valid_transitions w.operation.state) ≡ true
    → Unclashed w.operation w.operations
    → (w' : World) × (((advance t actor event payload >> next) w ≡ next w')
        × Advanced t.new_state w w')
advance_then t actor event payload next w allowed free =
    let (w', (e, adv)) = advance-Advanced t actor event payload w allowed free in
    (w', (then_ok (advance t actor event payload) next w e, adv))

pub require_state-ok :
    (s : OperationState) (x : Error) (w : World)
    → w.operation.state ≡ s
    → require_state s x w ≡ (ok tt, w)
require_state-ok s x w h =
    let same : is_state w.operation.state s ≡ true = ground (arith, ap index h) in simp same

pub require_state-err :
    (s : OperationState) (x : Error) (w : World)
    → is_state w.operation.state s ≡ false
    → require_state s x w ≡ (err x, w)
require_state-err s x w h = simp h
