-- ===== src/Execution/Soundness.antt =====
-- No action of the boundary overdraws an account, or creates or destroys credits, whichever way it
-- ends: the property is followed through every call, raised exceptions included.
use kalyx_mao_engine.Base.{
  ℕ, String, Bool, true, false, ◌≡◌, refl, ◌∙◌, Option, none, some, List, str_eq, if◌then◌else◌,
  str_append,
}
use kalyx_mao_engine.Base.Int.{ℤ, pos, ltb_ℤ}
use kalyx_mao_engine.Base.Outcome.{Error, Result, ok, err, invalid_transition}
use kalyx_mao_engine.Ledger.{
  Stamp, LedgerEntry, DoubleEntryLedger, escrow, treasury, external_sink, system_mint, transfer,
}
use kalyx_mao_engine.Ledger.Invariant.{IsValid}
use kalyx_mao_engine.Ledger.Methods.{transfer-IsValid, transfer_moves}
use kalyx_mao_engine.Ledger.Runs.{HoldsNoMint, transfer-HoldsNoMint}
use kalyx_mao_engine.Entities.{ActionProposal}
use kalyx_mao_engine.Operation.{
  OperationState, ConsequentialOperation, Transition, transition_to, is_state, escrowed, authorized,
}
use kalyx_mao_engine.Execution.State.{
  Field, World, Operations, Exec, proceed, ◌>>=◌, returns, raises, in_hand, require_state,
  if_positive, key_clashes, move_to, set_operation, save, save_in, transfer_amount, set_ledger,
  refresh_treasury,
}
use kalyx_mao_engine.Execution.Manager.{
  ProviderExecutionResult, Dispatch, transport_exception, answered, Moment, advance, settle, commit,
  roll_back, leave_unknown, conclude, settle, lock_if_absent, lock_credits, find_transaction,
  is_lock_of, short_hash, submit_operation, escrow_operation,
}

-- A valid ledger on which `n` credits were minted, none of them back in the account of the mint.
pub record IsSound (n : ℤ) (l : DoubleEntryLedger) : Type 0 where
  pub valid : IsValid l
  pub no_mint : HoldsNoMint l
  pub minted : l.total_minted ≡ n

-- Whichever way the action ends, a sound ledger stays sound.
pub record KeepsSound {ℓ} {A : Type ℓ} (m : Exec A) : Type 0 where
  pub keeps : (n : ℤ) (w : World) → IsSound n w.ledger → IsSound n (m w).1.ledger

proceed-IsSound {ℓ κ} :
    {A : Type ℓ} {B : Type κ} (n : ℤ) (r : Result A × World) (f : A → Exec B)
    → IsSound n r.1.ledger
    → ((a : A) → KeepsSound (f a))
    → IsSound n (proceed r f).1.ledger
proceed-IsSound n (ok a, w) f h k = (k a).keeps n w h
proceed-IsSound n (err e, w) f h k = h

pub >>=-KeepsSound {ℓ κ} :
    {A : Type ℓ} {B : Type κ} (m : Exec A) (f : A → Exec B)
    → KeepsSound m
    → ((a : A) → KeepsSound (f a))
    → KeepsSound (m >>= f)
>>=-KeepsSound m f h k = record { keeps = λ n w s. proceed-IsSound n (m w) f (h.keeps n w s) k }

pub if-IsSound {ℓ} :
    {A : Type ℓ} (n : ℤ) (b : Bool) (r r' : Result A × World)
    → IsSound n r.1.ledger
    → IsSound n r'.1.ledger
    → IsSound n (if b then r else r').1.ledger
if-IsSound n true r r' h h' = h
if-IsSound n false r r' h h' = h'

pub if-KeepsSound {ℓ} :
    {A : Type ℓ} (b : Bool) (m m' : Exec A)
    → KeepsSound m
    → KeepsSound m'
    → KeepsSound (if b then m else m')
if-KeepsSound true m m' h h' = h
if-KeepsSound false m m' h h' = h'

set_operation-KeepsSound : (r : Result ConsequentialOperation) → KeepsSound (set_operation r)
set_operation-KeepsSound (ok op) = record { keeps = λ n w h. h }
set_operation-KeepsSound (err e) = record { keeps = λ n w h. h }

save_in-KeepsSound : (o : Option Operations) → KeepsSound (save_in o)
save_in-KeepsSound none = record { keeps = λ n w h. h }
save_in-KeepsSound (some rows) = record {
  keeps = λ n w h. if-IsSound n (key_clashes w.operation rows) _ _ h h;
}

pub require_state-KeepsSound : (s : OperationState) (e : Error) → KeepsSound (require_state s e)
require_state-KeepsSound s e = record {
  keeps = λ n w h. if-IsSound n (is_state w.operation.state s) _ _ h h;
}

pub in_hand-KeepsSound : KeepsSound in_hand
in_hand-KeepsSound = record { keeps = λ n w h. h }

pub refresh_treasury-KeepsSound : KeepsSound refresh_treasury
refresh_treasury-KeepsSound = record { keeps = λ n w h. h }

pub move_to-KeepsSound : (t : Transition) → KeepsSound (move_to t)
move_to-KeepsSound t = record {
  keeps = λ n w h. (set_operation-KeepsSound (transition_to t w.operation)).keeps n w h;
}

pub save-KeepsSound : KeepsSound save
save-KeepsSound = record { keeps = λ n w h. (save_in-KeepsSound w.operations).keeps n w h }

pub advance-KeepsSound :
    (t : Transition) (actor event : String)
    (payload : ConsequentialOperation → List (String × Field))
    → KeepsSound (advance t actor event payload)
unfolding advance
advance-KeepsSound t actor event payload =
    >>=-KeepsSound (move_to t) _
      (record {
        keeps = λ n w h. (set_operation-KeepsSound (transition_to t w.operation)).keeps n w h;
      })
      λ _.
        >>=-KeepsSound save _
          (record { keeps = λ n w h. (save_in-KeepsSound w.operations).keeps n w h })
          λ _. record { keeps = λ n w h. h }

-- No transfer but one into the account of the mint breaks soundness.
pub transfer_amount-KeepsSound :
    (s : Stamp) (from to memo tx : String)
    → str_eq to system_mint ≡ false
    → KeepsSound (transfer_amount s from to memo tx)
transfer_amount-KeepsSound s from to memo tx elsewhere = record {
  keeps = λ n w h. go n w h (transfer s from to w.operation.amount memo (some tx) w.ledger) refl;
}
  where
    go :
        (n : ℤ) (w : World)
        → IsSound n w.ledger
        → (r : Result (LedgerEntry × DoubleEntryLedger))
        → transfer s from to w.operation.amount memo (some tx) w.ledger ≡ r
        → IsSound n (set_ledger r w).1.ledger
    go n w h (err x) e = h
    go n w h (ok (entry, l)) e = record {
      valid = transfer-IsValid s from to w.operation.amount memo (some tx) w.ledger h.valid e;
      no_mint =
          transfer-HoldsNoMint s from to w.operation.amount memo (some tx) w.ledger entry l
            elsewhere h.no_mint e;
      minted = (transfer_moves s from to w.operation.amount memo (some tx) w.ledger e).1 ∙ h.minted;
    }

pub if_positive-KeepsSound : (m : Exec (Unit {0})) → KeepsSound m → KeepsSound (if_positive m)
if_positive-KeepsSound m k = record {
  keeps = λ n w h. if-IsSound n (ltb_ℤ (pos 0) w.operation.amount) _ _ (k.keeps n w h) h;
}

module _ (sha256 : String → String) where
  settle-KeepsSound :
      (s : Stamp) (destination memo prefix : String) (token : Option String)
      → str_eq destination system_mint ≡ false
      → KeepsSound (settle sha256 s destination memo prefix token)
  settle-KeepsSound s destination memo prefix token elsewhere = if_positive-KeepsSound _ (
      >>=-KeepsSound _ _ in_hand-KeepsSound λ op.
        >>=-KeepsSound _ _ (transfer_amount-KeepsSound s escrow destination _ _ elsewhere)
          λ _. refresh_treasury-KeepsSound)

  lock_credits-KeepsSound :
      (s : Stamp) (op : ConsequentialOperation) (o : Option LedgerEntry)
      → KeepsSound (lock_credits sha256 s op o)
  lock_credits-KeepsSound s op none = transfer_amount-KeepsSound s treasury escrow _ _ refl
  lock_credits-KeepsSound s op (some e) =
      if-KeepsSound (is_lock_of op e) (returns tt) (raises invalid_transition)
        (record { keeps = λ n w h. h }) (record { keeps = λ n w h. h })

  -- The three ways in which `submit_operation` ends.
  commit-KeepsSound :
      (m : Moment) (p : ActionProposal) (token : Option String) (r : ProviderExecutionResult)
      → KeepsSound (commit sha256 m p token r)
  unfolding commit
  commit-KeepsSound m p token r =
      >>=-KeepsSound _ _ (settle-KeepsSound m.stamp external_sink _ _ token refl)
        λ _. >>=-KeepsSound _ _ (advance-KeepsSound _ _ _ _) λ _. record { keeps = λ n w h. h }

  roll_back-KeepsSound :
      (m : Moment) (token : Option String) (r : ProviderExecutionResult)
      → KeepsSound (roll_back sha256 m token r)
  unfolding roll_back
  roll_back-KeepsSound m token r =
      >>=-KeepsSound _ _ (settle-KeepsSound m.stamp treasury _ _ token refl)
        λ _. >>=-KeepsSound _ _ (advance-KeepsSound _ _ _ _) λ _. record { keeps = λ n w h. h }

  leave_unknown-KeepsSound :
      (m : Moment) (message reference : Option String) (reason : Field)
      → KeepsSound (leave_unknown sha256 m message reference reason)
  unfolding leave_unknown
  leave_unknown-KeepsSound m message reference reason =
      >>=-KeepsSound _ _ (advance-KeepsSound _ _ _ _) λ _. record { keeps = λ n w h. h }

  conclude-KeepsSound :
      (m : Moment) (p : ActionProposal) (token : Option String) (d : Dispatch)
      → KeepsSound (conclude sha256 m p token d)
  unfolding conclude
  conclude-KeepsSound m p token (transport_exception x) = leave_unknown-KeepsSound m _ _ _
  conclude-KeepsSound m p token (answered r) =
      if-KeepsSound (str_eq r.outcome "SUCCESS") _ _ (commit-KeepsSound m p token r) (
        if-KeepsSound (str_eq r.outcome "FAILURE") _ _ (roll_back-KeepsSound m token r)
          (leave_unknown-KeepsSound m _ _ _))

  -- `escrow_operation` keeps a ledger sound, whichever way it ends.
  pub escrow_operation-KeepsSound :
      (s : Stamp) (now : ℕ) → KeepsSound (escrow_operation sha256 s now)
  unfolding escrow_operation
  escrow_operation-KeepsSound s now =
      >>=-KeepsSound _ _ (require_state-KeepsSound authorized invalid_transition) λ _.
        >>=-KeepsSound _ _
          (if_positive-KeepsSound _ (
            >>=-KeepsSound (lock_if_absent sha256 s) (λ _. refresh_treasury)
              (record {
                keeps = λ n w h.
                    (lock_credits-KeepsSound s w.operation (
                        find_transaction (str_append "res-" (short_hash sha256 w.operation.id))
                          w.ledger.entries)).keeps
                      n w h;
              })
              (λ _. refresh_treasury-KeepsSound)))
          λ _. advance-KeepsSound _ _ _ _

  -- Whatever the provider answers, and whether `submit_operation` returns or raises: no account is
  -- overdrawn, no credits were created or lost, and `verify_conservation` still holds.
  pub submit_operation-KeepsSound :
      (provider : ConsequentialOperation → Dispatch) (m : Moment) (p : ActionProposal)
      (token : Option String)
      → KeepsSound (submit_operation sha256 provider m p token)
  unfolding submit_operation
  submit_operation-KeepsSound provider m p token =
      >>=-KeepsSound _ _ (require_state-KeepsSound escrowed invalid_transition) λ _.
        >>=-KeepsSound _ _ (advance-KeepsSound _ _ _ _) λ _.
          >>=-KeepsSound _ _ in_hand-KeepsSound λ op. conclude-KeepsSound m p token (provider op)
