-- ===== src/Orbio/Ending.antt =====
-- Actions that leave the operation RECONCILED.
use kalyx_mao_engine.Base.{◌≡◌, Option, none, some, inl, inr, Bool-cases, any}
use kalyx_mao_engine.Base.Outcome.{Result, ok, err}
use kalyx_mao_engine.Operation.{Transition, transition_to, valid_transitions, is_state, reconciled}
use kalyx_mao_engine.Operation.Routes.{is_state→eq}
use kalyx_mao_engine.Execution.State.{
  ◌>>=◌, World, Operations, Exec, proceed, set_operation, save_in, save, key_clashes,
}
use kalyx_mao_engine.Orbio.Reconciliation.{mark_reconciled}

-- What an action that returns leaves: the operation RECONCILED.
abbrev pub Ended : Result (Unit {0}) × World → Type 0
Ended (ok a, w) = w.operation.state ≡ reconciled
Ended (err e, w) = Unit {0}

save_in-Ended :
    (o : Option Operations) (w : World) → w.operation.state ≡ reconciled → Ended (save_in o w)
save_in-Ended none w h = h
save_in-Ended (some rows) w h = elim (Bool-cases (key_clashes w.operation rows)) [
  | inl clash ↦ rw clash tt
  | inr free ↦ rw free h
]

moved-Ended :
    (t : Transition) (w : World)
    → t.new_state ≡ reconciled
    → Ended (proceed (set_operation (transition_to t w.operation) w) (λ _. save))
unfolding transition_to
moved-Ended t w h =
    elim (Bool-cases (any (is_state t.new_state) (valid_transitions w.operation.state))) [
      | inl legal ↦ rw legal (save_in-Ended w.operations _ h)
      | inr illegal ↦ rw illegal tt
    ]

pub mark-Ended :
    (t : Transition) (w : World) → t.new_state ≡ reconciled → Ended (mark_reconciled t w)
mark-Ended t w h = elim (Bool-cases (is_state w.operation.state reconciled)) [
  | inl done ↦ rw done (is_state→eq w.operation.state reconciled done)
  | inr other ↦ rw other (moved-Ended t w h)
]

pub record EndsReconciled (m : Exec (Unit {0})) : Type 0 where
  pub ends : (w : World) → Ended (m w)

proceed-Ended :
    (r : Result (Unit {0}) × World) (f : Unit {0} → Exec (Unit {0}))
    → ((a : Unit {0}) → EndsReconciled (f a))
    → Ended (proceed r f)
proceed-Ended (ok a, w) f h = (h a).ends w
proceed-Ended (err e, w) f h = tt

pub >>=-EndsReconciled :
    (m : Exec (Unit {0})) (f : Unit {0} → Exec (Unit {0}))
    → ((a : Unit {0}) → EndsReconciled (f a))
    → EndsReconciled (m >>= f)
>>=-EndsReconciled m f h = record { ends = λ w. proceed-Ended (m w) f h }
