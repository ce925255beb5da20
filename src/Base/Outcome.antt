-- ===== src/Base/Outcome.antt =====
-- Python's exceptions as values, one constructor for each reason that the modelled code raises.
use mathlib.Core.Path.{◌≡◌, refl}
use mathlib.Core.Bool.{Bool, true, false}
use mathlib.Core.Logic.{◌⊎◌, inl, inr}

pub data Error : Type 0 where
  duplicate_transaction nonpositive_amount same_account insufficient_credits : Error
  integrity_transaction_id integrity_entry_id : Error
  invalid_transition policy_violation unauthorized external_execution : Error
  idempotency_conflict idempotency_in_progress token_already_consumed : Error
  missing_argument reconciliation_error integrity_operation_key provider_error : Error
  value_error permission_error : Error

-- What a call returns, or the exception that leaves it.
pub data Result {ℓ} (T : Type ℓ) : Type ℓ where
  err : Error → Result T
  ok : T → Result T

-- `if b: raise e`
abbrev pub raise_if : Bool → Error → Result (Unit {0})
raise_if false e = ok tt
raise_if true e = err e

infixl 5 ◌>>=◌
abbrev pub ◌>>=◌ {ℓ ℓ'} : {S : Type ℓ} {T : Type ℓ'} → Result S → (S → Result T) → Result T
err e >>= rest = err e
ok s >>= rest = rest s

infixl 5 ◌>>◌
abbrev pub ◌>>◌ {ℓ} : {T : Type ℓ} → Result (Unit {0}) → Result T → Result T
first >> second = first >>= λ _. second

pub Result-cases {ℓ} :
    {A : Type ℓ} (r : Result A) → ((a : A) × (r ≡ ok a)) ⊎ ((e : Error) × (r ≡ err e))
Result-cases (ok a) = inl (a, refl)
Result-cases (err e) = inr (e, refl)
