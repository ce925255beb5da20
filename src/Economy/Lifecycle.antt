-- ===== src/Economy/Lifecycle.antt =====
-- What an agent may propose after its lifecycle has been evaluated.
use kalyx_mao_engine.Base.{
  ℕ, ◌≤◌, String, Bool, true, false, ◌≡◌, refl, Option, none, some, ◌||◌, inl, inr, arith, leb,
  Bool-cases,
}
use kalyx_mao_engine.Base.Int.{ℤ, pos, ◌≤ℤ◌, -ℤ_parts, ltb_ℤ}
use kalyx_mao_engine.Entities.{
  AgentRecord, AgentStatus, active, probation, restricted, suspended, retired,
}
use kalyx_mao_engine.Economy.Reputation.{
  RatedAgent, PerformanceRecord, is_external, is_active, is_retired, consecutive_failures,
  status_by, put_status, adjust_authority, evaluate_lifecycle, can_propose_action, obstacle_by,
}

-- What a status lets through, whatever the ceiling was before.
abbrev pub Permits : AgentStatus → String → ℤ → Type 0
Permits retired act credits = ⊥
Permits suspended act credits = ⊥
Permits restricted act credits = (is_external act ≡ false) × (credits ≤ℤ pos 5)
Permits probation act credits = credits ≤ℤ pos 12
Permits active act credits = Unit {0}

adjust-status :
    (composite : ℤ) (a : AgentRecord) (perf : Option PerformanceRecord)
    → (adjust_authority composite a perf).0.status ≡ a.status
unfolding adjust_authority
adjust-status composite a none = refl
adjust-status composite a (some p) = ground arith

-- A demotion lifts no ceiling over 5, and none that is over 5.
adjust-ceiling :
    (composite : ℤ) (a : AgentRecord) (perf : Option PerformanceRecord) (n : ℕ)
    → 5 ≤ n
    → a.authority_ceiling ≤ℤ pos n
    → is_active a.status ≡ false
    → (adjust_authority composite a perf).0.authority_ceiling ≤ℤ pos n
unfolding adjust_authority
adjust-ceiling composite a none n low h other = h
adjust-ceiling composite a (some p) n low h other =
    ground (arith, low, h, other, -ℤ_parts a.authority_ceiling (pos 5))

-- After any adjustment a status lets through no more than it permits.
Permits-adjust :
    (status : AgentStatus) (composite : ℤ) (a : AgentRecord) (perf : Option PerformanceRecord)
    (act : String) (credits : ℤ)
    → can_propose_action (adjust_authority composite (put_status status a) perf).0 act credits
      ≡ none
    → Permits status act credits
unfolding can_propose_action
Permits-adjust active composite a perf act credits h = tt
Permits-adjust probation composite a perf act credits h =
    let new = (adjust_authority composite (put_status probation a) perf).0 in
    let bound : new.authority_ceiling ≤ℤ pos 12 =
      adjust-ceiling composite (put_status probation a) perf 12 (omega arith) (ground arith) refl in
    let through : obstacle_by probation new act credits ≡ none =
      rw (adjust-status composite (put_status probation a) perf) at h in
    ground (arith, bound, through)
Permits-adjust restricted composite a perf act credits h =
    let new = (adjust_authority composite (put_status restricted a) perf).0 in
    let through : obstacle_by restricted new act credits ≡ none =
      rw (adjust-status composite (put_status restricted a) perf) at h in
    ground (arith, through)
Permits-adjust suspended composite a perf act credits h =
    cc (rw (adjust-status composite (put_status suspended a) perf) at h)
Permits-adjust retired composite a perf act credits h =
    cc (rw (adjust-status composite (put_status retired a) perf) at h)

-- Which marks are low: under the bound of reputation, or of performance, or as many failures.
abbrev pub is_below : ℕ → ℕ → ℕ → RatedAgent → Bool
is_below reputation performance failures a =
    ltb_ℤ a.reputation_score (pos reputation)
    || ltb_ℤ a.performance_score (pos performance)
    || leb failures (consecutive_failures a)

abbrev status_of : RatedAgent → AgentStatus
status_of a = status_by a.reputation_score a.performance_score (consecutive_failures a)

-- What an agent's scores and its last failures let it propose.
pub record Earned (a : RatedAgent) (act : String) (credits : ℤ) : Type 0 where
  pub in_service : is_retired a.agent.status ≡ false
  pub not_suspended : is_below 3000 3000 10 a ≡ false
  pub low : is_below 5000 5000 6 a ≡ true → (is_external act ≡ false) × (credits ≤ℤ pos 5)
  pub middling : is_below 7500 7000 3 a ≡ true → credits ≤ℤ pos 12

Permits-Earned :
    (a : RatedAgent) (act : String) (credits : ℤ)
    → is_retired a.agent.status ≡ false
    → Permits (status_of a) act credits
    → Earned a act credits
unfolding status_by
Permits-Earned a act credits serving h = elim (Bool-cases (is_below 1500 1500 15 a)) [
  | inl gone ↦ absurd (simp gone at h)
  | inr stays ↦ elim (Bool-cases (is_below 3000 3000 10 a)) [
    | inl poor ↦ absurd (simp (stays, poor) at h)
    | inr fair ↦ elim (Bool-cases (is_below 5000 5000 6 a)) [
      | inl low ↦
          let (internal, small) : (is_external act ≡ false) × (credits ≤ℤ pos 5) =
            simp (stays, fair, low) at h in
          record {
            in_service = serving;
            not_suspended = fair;
            low = λ _. (internal, small);
            middling = λ _. omega (arith, small);
          }
      | inr good ↦ elim (Bool-cases (is_below 7500 7000 3 a)) [
        | inl middling ↦
            let bound : credits ≤ℤ pos 12 = simp (stays, fair, good, middling) at h in
            record {
              in_service = serving;
              not_suspended = fair;
              low = λ low. cc (good, low);
              middling = λ _. bound;
            }
        | inr best ↦ record {
          in_service = serving;
          not_suspended = fair;
          low = λ low. cc (good, low);
          middling = λ middling. cc (best, middling);
        }
      ]
    ]
  ]
]

-- An action that an agent may propose after `_evaluate_lifecycle`, whatever its status, its ceiling and
-- its performance record were before: the agent had not been retired, neither score was under 30 and
-- there were fewer than 10 failures in a row; with a score under 50 or 6 failures the action is not
-- an external one and asks for at most 5 credits; with a reputation under 75, a composite score under
-- 70 or 3 failures it asks for at most 12.
pub can_propose_action-Earned :
    (a : RatedAgent) (perf : Option PerformanceRecord) (act : String) (credits : ℤ)
    → can_propose_action (evaluate_lifecycle a perf).agent.agent act credits ≡ none
    → Earned a act credits
unfolding evaluate_lifecycle can_propose_action
can_propose_action-Earned a perf act credits h = elim (Bool-cases (is_retired a.agent.status)) [
  | inl gone ↦ cc (simp gone at h)
  | inr serving ↦ Permits-Earned a act credits serving (
      Permits-adjust (status_of a) a.performance_score a.agent perf act credits (simp serving at h))
]
