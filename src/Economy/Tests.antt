-- ===== src/Economy/Tests.antt =====
-- An allocation on concrete inputs.
use kalyx_mao_engine.Base.{String, ◌≡◌, refl, some, [], ◌∷◌, map}
use kalyx_mao_engine.Base.Int.{ℤ, pos, ◌≤ℤ◌, ◌+ℤ◌, ◌-ℤ◌}
use kalyx_mao_engine.Entities.{
  AgentRecord, AgentStatus, Organisation, executing, active, restricted, retired,
}
use kalyx_mao_engine.Economy.Allocator.{
  Ranking, Allocations, allocate, allocate_static, static_allocations, eligible_agents, total,
  performance, static,
}
use kalyx_mao_engine.Economy.Bounds.{allocate_conserves}
use kalyx_mao_engine.Economy.Reputation.{
  RatedAgent, PerformanceRecord, promoted, evaluate_lifecycle, can_propose_action, status_by,
  adjust_authority, consecutive_failures, count_failures, internal_only,
}
use kalyx_mao_engine.Economy.Lifecycle.{Earned, can_propose_action-Earned}

abbrev agent : String → ℤ → AgentStatus → AgentRecord
agent id ceiling status = record {
  id = id;
  role = "RESEARCHER";
  authority_ceiling = ceiling;
  allowed_action_types = [];
  status = status;
}

abbrev acme : Organisation
acme = record {
  id = "acme";
  tenant_id = "t";
  treasury_balance = pos 40;
  state = executing;
  agents =
      ("a", agent "a" (pos 25) active)
      ∷ ("b", agent "b" (pos 0) restricted)
      ∷ ("c", agent "c" (pos 9) retired)
      ∷ [];
}

-- Raw shares of 30 credits for each agent, which together exceed the treasury.
abbrev thirty_each : Ranking
thirty_each agents treasury = map (λ a. (a, pos 30)) agents

allocate_conserves_example :
    (l : Allocations) × (allocate thirty_each thirty_each performance acme ≡ some l)
    × (total l ≤ℤ pos 40)
allocate_conserves_example = allocate_conserves thirty_each thirty_each performance acme

-- STATIC gives an agent that is RESTRICTED, and whose authority ceiling is 0, five credits.
static_over_ceiling :
    allocate thirty_each thirty_each static acme ≡ some (("a", pos 20) ∷ ("b", pos 5) ∷ [])
unfolding allocate allocate_static static_allocations eligible_agents total ◌+ℤ◌
static_over_ceiling = refl

-- A restricted agent with a ceiling of 0, a reputation of 40 and a composite score of 55.
abbrev rated : RatedAgent
rated = record {
  agent = agent "b" (pos 0) restricted;
  reputation_score = pos 4000;
  performance_score = pos 5500;
  task_history = [];
}

abbrev level_three : PerformanceRecord
level_three = record { authority_level = 3; evaluation_count = 6 }

-- Its demotion is recorded as a promotion, from 0 to 5.
demoted_upwards :
    (evaluate_lifecycle rated (some level_three)).events ≡ promoted (pos 0) (pos 5) (pos 5500) ∷ []
unfolding evaluate_lifecycle status_by adjust_authority consecutive_failures count_failures
    internal_only ◌-ℤ◌
demoted_upwards = refl

can_propose_action-Earned_example : Earned rated "DATA_FETCH" (pos 5)
unfolding evaluate_lifecycle status_by adjust_authority consecutive_failures count_failures
    internal_only can_propose_action ◌-ℤ◌
can_propose_action-Earned_example =
    can_propose_action-Earned rated (some level_three) "DATA_FETCH" (pos 5) refl
