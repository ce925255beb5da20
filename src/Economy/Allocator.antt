-- ===== src/Economy/Allocator.antt =====
-- `ResourceAllocator` (src/economy/allocator.py). Scores and weights are floats: the ranking that
-- `sorted` makes of the agents, and each agent's `int(weight * treasury)`, are the parameter `Ranking`.
-- The dictionary of allocations is a list of pairs in the order of its writes.
use kalyx_mao_engine.Base.{
  ℕ, ◌/◌, String, Bool, true, false, Option, none, some, List, [], ◌∷◌, length, if◌then◌else◌,
}
use kalyx_mao_engine.Base.Int.{ℤ, pos, pos_part, ◌+ℤ◌, ◌-ℤ◌, ltb_ℤ, leb_ℤ}
use kalyx_mao_engine.Base.Dict.{Dict}
use kalyx_mao_engine.Entities.{
  AgentRecord, AgentStatus, Organisation, probation, restricted, suspended, retired,
}

pub data AllocationStrategy : Type 0 where
  static performance adaptive : AllocationStrategy

-- What the float arithmetic of a strategy gives: the agents in the order of `sorted`, each with its
-- raw share.
abbrev pub Ranking : Type 0
Ranking = List AgentRecord → ℕ → List (AgentRecord × ℤ)

-- `min` and `max` of Python
abbrev pub min_ℤ : ℤ → ℤ → ℤ
min_ℤ a b = if ltb_ℤ b a then b else a

abbrev pub max_ℤ : ℤ → ℤ → ℤ
max_ℤ a b = if ltb_ℤ a b then b else a

abbrev pub is_eligible : AgentStatus → Bool
is_eligible suspended = false
is_eligible retired = false
is_eligible _ = true

unfoldable pub eligible_agents : Dict AgentRecord → List AgentRecord
eligible_agents [] = []
eligible_agents ((k, a) ∷ agents) =
    let rest = eligible_agents agents in if is_eligible a.status then a ∷ rest else rest

abbrev pub Allocations : Type 0
Allocations = List (String × ℤ)

abbrev pub static_amount : AgentStatus → ℤ → ℤ → ℤ
static_amount restricted ceiling share = min_ℤ (pos 5) share
static_amount probation ceiling share = min_ℤ ceiling (min_ℤ (pos 12) share)
static_amount _ ceiling share = min_ℤ ceiling share

unfoldable pub static_allocations : ℤ → List AgentRecord → Allocations
static_allocations share [] = []
static_allocations share (a ∷ agents) =
    (a.id, static_amount a.status a.authority_ceiling share) ∷ static_allocations share agents

-- `_allocate_static`; there is an eligible agent.
unfoldable pub allocate_static : List AgentRecord → ℕ → Allocations
allocate_static agents treasury = static_allocations (pos (treasury / length agents)) agents

-- The loop of `_allocate_performance` and of `_allocate_adaptive`, which differ in the raw shares.
unfoldable pub allocate_ranked : ℤ → ℤ → List (AgentRecord × ℤ) → Allocations
allocate_ranked treasury allocated [] = []
allocate_ranked treasury allocated ((a, raw_share) ∷ ranked) =
    let share = min_ℤ a.authority_ceiling raw_share in
    let final_share = max_ℤ (pos 0) (min_ℤ share (treasury -ℤ allocated)) in
    (a.id, final_share) ∷ allocate_ranked treasury (allocated +ℤ final_share) ranked

-- `sum(allocations.values())`
unfoldable pub total : Allocations → ℤ
total [] = pos 0
total ((id, n) ∷ rest) = n +ℤ total rest

unfoldable pub zero_allocations : Dict AgentRecord → Allocations
zero_allocations [] = []
zero_allocations ((k, a) ∷ agents) = (a.id, pos 0) ∷ zero_allocations agents

abbrev pub by_strategy :
    (by_performance by_adaptation : Ranking)
    → AllocationStrategy
    → List AgentRecord
    → ℕ
    → Allocations
by_strategy by_performance by_adaptation static agents treasury = allocate_static agents treasury
by_strategy by_performance by_adaptation performance agents treasury =
    allocate_ranked (pos treasury) (pos 0) (by_performance agents treasury)
by_strategy by_performance by_adaptation adaptive agents treasury =
    allocate_ranked (pos treasury) (pos 0) (by_adaptation agents treasury)

abbrev pub is_nothing : List AgentRecord → Bool
is_nothing [] = true
is_nothing (a ∷ l) = false

-- `max(0, org.treasury_balance)`
abbrev pub available : Organisation → ℕ
available org = pos_part org.treasury_balance

-- The allocations of `allocate`; `none` is the AssertionError of an excess over the treasury.
unfoldable pub allocate :
    (by_performance by_adaptation : Ranking)
    → AllocationStrategy
    → Organisation
    → Option Allocations
allocate by_performance by_adaptation strategy org =
    let agents = eligible_agents org.agents in
    let allocations = by_strategy by_performance by_adaptation strategy agents (available org) in
    if is_nothing agents
    then some (zero_allocations org.agents)
    else if leb_ℤ (pos (available org)) (pos 0)
    then some (zero_allocations org.agents)
    else if leb_ℤ (total allocations) (pos (available org))
    then some allocations
    else none

unfoldable pub reallocate_budgets :
    (by_performance by_adaptation : Ranking) → Organisation → Option Allocations
unfolding allocate
reallocate_budgets by_performance by_adaptation = allocate by_performance by_adaptation performance
