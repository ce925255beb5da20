-- ===== src/Orbio/Money.antt =====
-- Actions that leave the ledger and the treasury balance as they were.
use kalyx_mao_engine.Base.{
  String, Bool, true, false, ◌≡◌, refl, ◌∙◌, Option, none, some, List, if◌then◌else◌,
}
use kalyx_mao_engine.Base.Outcome.{Result, ok, err}
use kalyx_mao_engine.Operation.{ConsequentialOperation, Transition, transition_to}
use kalyx_mao_engine.Execution.State.{
  Field, World, Operations, Exec, proceed, ◌>>=◌, set_operation, move_to, key_clashes, save_in,
  save,
}
use kalyx_mao_engine.Execution.Manager.{advance}

pub record SameMoney (w w' : World) : Type 0 where
  pub ledger : w'.ledger ≡ w.ledger
  pub treasury : w'.treasury_balance ≡ w.treasury_balance

pub record KeepsMoney {ℓ} {A : Type ℓ} (m : Exec A) : Type 0 where
  pub keeps : (w : World) → SameMoney w (m w).1

pub same_money : (w : World) → SameMoney w w
same_money w = record { ledger = refl; treasury = refl }

pub then_money : {w w' w'' : World} → SameMoney w w' → SameMoney w' w'' → SameMoney w w''
then_money a b = record { ledger = b.ledger ∙ a.ledger; treasury = b.treasury ∙ a.treasury }

proceed-SameMoney {ℓ κ} :
    {A : Type ℓ} {B : Type κ} (w : World) (r : Result A × World) (f : A → Exec B)
    → SameMoney w r.1
    → ((a : A) → KeepsMoney (f a))
    → SameMoney w (proceed r f).1
proceed-SameMoney w (ok a, w') f h k = then_money h ((k a).keeps w')
proceed-SameMoney w (err e, w') f h k = h

pub >>=-KeepsMoney {ℓ κ} :
    {A : Type ℓ} {B : Type κ} (m : Exec A) (f : A → Exec B)
    → KeepsMoney m
    → ((a : A) → KeepsMoney (f a))
    → KeepsMoney (m >>= f)
>>=-KeepsMoney m f h k = record { keeps = λ w. proceed-SameMoney w (m w) f (h.keeps w) k }

pub if-SameMoney {ℓ} :
    {A : Type ℓ} (w : World) (b : Bool) (r r' : Result A × World)
    → SameMoney w r.1
    → SameMoney w r'.1
    → SameMoney w (if b then r else r').1
if-SameMoney w true r r' h h' = h
if-SameMoney w false r r' h h' = h'

set_operation-KeepsMoney : (r : Result ConsequentialOperation) → KeepsMoney (set_operation r)
set_operation-KeepsMoney (ok op) = record { keeps = λ w. record { ledger = refl; treasury = refl } }
set_operation-KeepsMoney (err e) = record { keeps = same_money }

pub move_to-KeepsMoney : (t : Transition) → KeepsMoney (move_to t)
move_to-KeepsMoney t = record {
  keeps = λ w. (set_operation-KeepsMoney (transition_to t w.operation)).keeps w;
}

save_in-KeepsMoney : (o : Option Operations) → KeepsMoney (save_in o)
save_in-KeepsMoney none = record { keeps = same_money }
save_in-KeepsMoney (some rows) = record {
  keeps = λ w.
      if-SameMoney w (key_clashes w.operation rows) _ _ (same_money w)
        (record { ledger = refl; treasury = refl });
}

pub save-KeepsMoney : KeepsMoney save
save-KeepsMoney = record { keeps = λ w. (save_in-KeepsMoney w.operations).keeps w }

pub advance-KeepsMoney :
    (t : Transition) (actor event : String)
    (payload : ConsequentialOperation → List (String × Field))
    → KeepsMoney (advance t actor event payload)
unfolding advance
advance-KeepsMoney t actor event payload = >>=-KeepsMoney (move_to t) _ (move_to-KeepsMoney t) λ _.
    >>=-KeepsMoney save _ save-KeepsMoney
      λ _. record { keeps = λ w. record { ledger = refl; treasury = refl } }
