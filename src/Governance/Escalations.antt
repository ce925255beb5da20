-- ===== src/Governance/Escalations.antt =====
-- A proposal that waits for an operator is decided once.
use kalyx_mao_engine.Base.{
  ℕ, suc, ◌≤◌, String, Bool, true, false, ◌≡◌, refl, Option, none, some, List, [], ◌∷◌, ◌&&◌, arith,
  str_eq, eq_iff, if◌then◌else◌,
}
use kalyx_mao_engine.Base.Dict.{lookup, lookup-remove}
use kalyx_mao_engine.Entities.{PolicyDecision}
use kalyx_mao_engine.Governance.HumanGate.{HumanGate, approve_escalation, reject_escalation}

-- An operator's call, and whether it approves.
pub data Review : Type 0 where
  approving : (uuid proposal_id operator : String) → Review
  rejecting : (uuid proposal_id reason operator : String) → Review

abbrev pub subject : Review → String
subject (approving uuid id operator) = id
subject (rejecting uuid id reason operator) = id

module _ (sha256 : String → String) where
  abbrev pub review : Review → HumanGate → Option (PolicyDecision × HumanGate)
  review (approving uuid id operator) = approve_escalation sha256 uuid id operator
  review (rejecting uuid id reason operator) = reject_escalation uuid id reason operator

  abbrev gate_after : HumanGate → Option (PolicyDecision × HumanGate) → HumanGate
  gate_after gate none = gate
  gate_after gate (some (decision, gate')) = gate'

  abbrev is_decided : Option (PolicyDecision × HumanGate) → Bool
  is_decided none = false
  is_decided (some d) = true

  -- How many of the calls, made in turn, decide the proposal.
  unfoldable pub decisions : String → HumanGate → List Review → ℕ
  decisions id gate [] = 0
  decisions id gate (r ∷ rs) =
      let later = decisions id (gate_after gate (review r gate)) rs in
      if str_eq (subject r) id && is_decided (review r gate) then suc later else later

  abbrev waits : String → HumanGate → Bool
  waits id gate = elim (lookup id gate) [ none ↦ false | some p ↦ true ]

  -- A call decides its proposal if it waits, and takes it away; no other proposal is touched.
  review_effect :
      (id : String) (r : Review) (gate : HumanGate)
      → (is_decided (review r gate) ≡ waits (subject r) gate)
        × (waits id (gate_after gate (review r gate))
            ≡ (if str_eq (subject r) id then false else waits id gate))
  unfolding approve_escalation reject_escalation
  review_effect id (approving uuid j operator) gate =
      ground (arith, lookup-remove j id gate, eq_iff j id)
  review_effect id (rejecting uuid j reason operator) gate =
      ground (arith, lookup-remove j id gate, eq_iff j id)

  decisions_of_absent :
      (id : String) (gate : HumanGate) (rs : List Review)
      → waits id gate ≡ false
      → decisions id gate rs ≡ 0
  unfolding decisions
  decisions_of_absent id gate [] h = refl
  decisions_of_absent id gate (r ∷ rs) h = ground (
    arith,
    h,
    eq_iff (subject r) id,
    (review_effect id r gate).0,
    (review_effect id r gate).1,
    decisions_of_absent id (gate_after gate (review r gate)) rs,
  )

  -- Of any approvals and rejections, in any order, one at most decides a proposal.
  pub decide_once : (id : String) (gate : HumanGate) (rs : List Review) → decisions id gate rs ≤ 1
  unfolding decisions
  decide_once id gate [] = omega arith
  decide_once id gate (r ∷ rs) = ground (
    arith,
    eq_iff (subject r) id,
    (review_effect id r gate).0,
    (review_effect id r gate).1,
    decide_once id (gate_after gate (review r gate)) rs,
    decisions_of_absent id (gate_after gate (review r gate)) rs,
  )
