-- ===== src/Economy/Reputation.antt =====
-- The lifecycle of `ReputationEngine` (src/economy/reputation.py): `_evaluate_lifecycle`, what it
-- counts, and what an agent may be assigned and may propose. The two scores, which are rounded to two
-- decimals before, are in hundredths; `evaluate_lifecycle` only compares them.
use mathlib.Core.List.{reverse}
use kalyx_mao_engine.Base.{
  ℕ, suc, ◌+◌, ◌*◌, ◌-◌, String, Bool, true, false, not, Option, none, some, List, [], ◌∷◌, ◌++◌,
  ◌||◌, ◌&&◌, str_eq, starts_with, ltb, leb, if◌then◌else◌,
}
use kalyx_mao_engine.Base.Int.{ℤ, pos, ◌-ℤ◌, ltb_ℤ, leb_ℤ, eqb_ℤ}
use kalyx_mao_engine.Entities.{
  AgentRecord, AgentStatus, active, probation, restricted, suspended, retired,
}
use kalyx_mao_engine.Economy.Allocator.{min_ℤ, max_ℤ}

-- An agent with what its reputation is made of.
pub record RatedAgent : Type 0 where
  pub agent : AgentRecord
  pub reputation_score : ℤ
  pub performance_score : ℤ
  pub task_history : List String

-- The fields of an AgentPerformanceRecord that the lifecycle reads and writes.
pub record PerformanceRecord : Type 0 where
  pub authority_level : ℕ
  pub evaluation_count : ℕ

-- The audit events, with the values of their payloads.
pub data LifecycleEvent : Type 0 where
  status_changed :
      (previous new : AgentStatus) (score composite : ℤ) (failures : ℕ) → LifecycleEvent
  promoted demoted : (previous new composite : ℤ) → LifecycleEvent

abbrev pub is_failure : String → Bool
is_failure e = starts_with e "FAILURE" || starts_with e "VIOLATION"

-- The loop of `_consecutive_failures` over the reversed history.
unfoldable pub count_failures : List String → ℕ
count_failures [] = 0
count_failures (e ∷ l) =
    let rest = count_failures l in
    if is_failure e then suc rest else if starts_with e "SUCCESS" then 0 else rest

unfoldable pub consecutive_failures : RatedAgent → ℕ
consecutive_failures a = count_failures (reverse a.task_history)

abbrev pub is_external : String → Bool
is_external act =
    str_eq act "EXTERNAL_API_CALL"
    || str_eq act "SIMULATED_ALLOCATION"
    || str_eq act "BLOCKCHAIN_TRANSACTION"

unfoldable pub internal_only : List String → List String
internal_only [] = []
internal_only (act ∷ acts) =
    let rest = internal_only acts in if is_external act then rest else act ∷ rest

-- The status by the triggers, in order of severity.
unfoldable pub status_by : (score composite : ℤ) (failures : ℕ) → AgentStatus
status_by score composite failures =
    if ltb_ℤ score (pos 1500) || ltb_ℤ composite (pos 1500) || leb 15 failures
    then retired
    else if ltb_ℤ score (pos 3000) || ltb_ℤ composite (pos 3000) || leb 10 failures
    then suspended
    else if ltb_ℤ score (pos 5000) || ltb_ℤ composite (pos 5000) || leb 6 failures
    then restricted
    else if ltb_ℤ score (pos 7500) || ltb_ℤ composite (pos 7000) || leb 3 failures
    then probation
    else active

-- What each status makes of the agent.
abbrev pub put_status : AgentStatus → AgentRecord → AgentRecord
put_status retired a = record a {
  status = retired;
  authority_ceiling = pos 0;
  allowed_action_types = [];
}
put_status suspended a = record a {
  status = suspended;
  authority_ceiling = pos 0;
  allowed_action_types = [];
}
put_status restricted a = record a {
  status = restricted;
  authority_ceiling = pos 0;
  allowed_action_types = internal_only a.allowed_action_types;
}
put_status probation a = record a {
  status = probation;
  authority_ceiling = min_ℤ a.authority_ceiling (pos 12);
}
put_status active a = record a {
  status = active;
  authority_ceiling = max_ℤ a.authority_ceiling (pos 25);
}

abbrev pub is_active : AgentStatus → Bool
is_active active = true
is_active _ = false

abbrev pub is_retired : AgentStatus → Bool
is_retired retired = true
is_retired _ = false

abbrev pub min_ℕ : ℕ → ℕ → ℕ
min_ℕ a b = if ltb b a then b else a

abbrev pub max_ℕ : ℕ → ℕ → ℕ
max_ℕ a b = if ltb a b then b else a

abbrev pub promoted_level : PerformanceRecord → ℕ
promoted_level p = min_ℕ 5 (p.authority_level + 1)

abbrev pub demoted_level : PerformanceRecord → ℕ
demoted_level p = max_ℕ 1 (p.authority_level - 1)

-- Promotion and demotion, on the agent with its new status.
unfoldable pub adjust_authority :
    ℤ → AgentRecord → Option PerformanceRecord → AgentRecord × Option PerformanceRecord
adjust_authority composite a none = (a, none)
adjust_authority composite a (some p) =
    if is_active a.status && leb_ℤ (pos 9000) composite && leb 5 p.evaluation_count
    then (
      record a { authority_ceiling = min_ℤ (pos 50) (pos (25 + promoted_level p * 5)) },
      some (record p { authority_level = promoted_level p }),
    )
    else if ltb_ℤ composite (pos 6000) && not (is_retired a.status)
    then (
      record a { authority_ceiling = max_ℤ (pos 5) (a.authority_ceiling -ℤ pos 5) },
      some (record p { authority_level = demoted_level p }),
    )
    else (a, some p)

-- What a call leaves: the agent, its performance record, and the events for the store.
pub record Evaluated : Type 0 where
  pub agent : RatedAgent
  pub record_after : Option PerformanceRecord
  pub events : List LifecycleEvent

abbrev pub same_status : AgentStatus → AgentStatus → Bool
same_status active active = true
same_status probation probation = true
same_status restricted restricted = true
same_status suspended suspended = true
same_status retired retired = true
same_status _ _ = false

abbrev pub status_events : RatedAgent → AgentRecord → List LifecycleEvent
status_events a new =
    if same_status new.status a.agent.status
    then []
    else status_changed a.agent.status new.status a.reputation_score a.performance_score
        (consecutive_failures a)
      ∷ []

abbrev pub ceiling_events : RatedAgent → AgentRecord → List LifecycleEvent
ceiling_events a new =
    if eqb_ℤ new.authority_ceiling a.agent.authority_ceiling
    then []
    else if ltb_ℤ a.agent.authority_ceiling new.authority_ceiling
    then promoted a.agent.authority_ceiling new.authority_ceiling a.performance_score ∷ []
    else demoted a.agent.authority_ceiling new.authority_ceiling a.performance_score ∷ []

abbrev pub evaluated : RatedAgent → AgentRecord × Option PerformanceRecord → Evaluated
evaluated a (new, perf) = record {
  agent = record a { agent = new };
  record_after = perf;
  events = status_events a new ++ ceiling_events a new;
}

abbrev pub level_zero : Option PerformanceRecord → Option PerformanceRecord
level_zero none = none
level_zero (some p) = some (record p { authority_level = 0 })

-- `_evaluate_lifecycle` with an event store; without one the events are dropped.
unfoldable pub evaluate_lifecycle : RatedAgent → Option PerformanceRecord → Evaluated
evaluate_lifecycle a perf =
    if is_retired a.agent.status
    then record {
      agent = record a { agent = put_status retired a.agent };
      record_after = level_zero perf;
      events = [];
    }
    else evaluated a (
        adjust_authority a.performance_score
          (put_status (status_by a.reputation_score a.performance_score (consecutive_failures a))
            a.agent)
          perf)

unfoldable pub can_assign_task : AgentRecord → Bool
can_assign_task a = elim a.status [
  | active ↦ true
  | probation ↦ true
  | restricted ↦ true
  | suspended ↦ false
  | retired ↦ false
]

-- Why an agent cannot propose an action.
pub data Obstacle : Type 0 where
  agent_retired agent_suspended external_action over_restricted_limit over_ceiling : Obstacle

abbrev pub ceiling_obstacle : AgentRecord → ℤ → Option Obstacle
ceiling_obstacle a credits = if ltb_ℤ a.authority_ceiling credits then some over_ceiling else none

abbrev pub obstacle_by : AgentStatus → AgentRecord → String → ℤ → Option Obstacle
obstacle_by retired a act credits = some agent_retired
obstacle_by suspended a act credits = some agent_suspended
obstacle_by restricted a act credits =
    if is_external act
    then some external_action
    else if ltb_ℤ (pos 5) credits
    then some over_restricted_limit
    else ceiling_obstacle a credits
obstacle_by probation a act credits = ceiling_obstacle a credits
obstacle_by active a act credits = ceiling_obstacle a credits

-- `none` is `(True, …)`.
unfoldable pub can_propose_action : AgentRecord → String → ℤ → Option Obstacle
can_propose_action a act credits = obstacle_by a.status a act credits
