-- ===== src/Economy/Bounds.antt =====
-- An allocation never exceeds the treasury.
use kalyx_mao_engine.Base.{
  ℕ, suc, ◌+◌, ◌*◌, ◌/◌, true, ◌≡◌, refl, some, List, [], ◌∷◌, length, arith, inl, inr, Bool-cases,
}
use kalyx_mao_engine.Base.Int.{ℤ, pos, ◌+ℤ◌, ◌-ℤ◌, ◌≤ℤ◌, leb_ℤ, int_laws, parts, eq_of_parts}
use native.Mathlib.Nat.{mul-div-le}
use kalyx_mao_engine.Base.Dict.{Dict}
use kalyx_mao_engine.Entities.{
  AgentRecord, AgentStatus, Organisation, active, probation, restricted, suspended, retired,
}
use kalyx_mao_engine.Economy.Allocator.{
  AllocationStrategy, Ranking, Allocations, min_ℤ, max_ℤ, static_amount, static_allocations,
  allocate_static, allocate_ranked, total, allocate, available, by_strategy, is_nothing, static,
  performance, adaptive, eligible_agents, zero_allocations,
}

-- Each allocation of the ranked loop is at least 0, and no more than the ceiling unless that is negative.
abbrev pub WithinAuthority : Allocations → List (AgentRecord × ℤ) → Type 0
WithinAuthority [] [] = Unit {0}
WithinAuthority ((id, n) ∷ l) ((a, raw) ∷ ranked) =
    (id ≡ a.id) × (pos 0 ≤ℤ n) × (n ≤ℤ max_ℤ (pos 0) a.authority_ceiling) × WithinAuthority l ranked
WithinAuthority _ _ = ⊥

final_share_bounds :
    (ceiling raw left : ℤ)
    → pos 0 ≤ℤ left
    → let n = max_ℤ (pos 0) (min_ℤ (min_ℤ ceiling raw) left) in
      (pos 0 ≤ℤ n) × (n ≤ℤ left) × (n ≤ℤ max_ℤ (pos 0) ceiling)
final_share_bounds ceiling raw left h = ground arith

pub allocate_ranked_bounds :
    (treasury allocated : ℤ) (ranked : List (AgentRecord × ℤ))
    → allocated ≤ℤ treasury
    → (allocated +ℤ total (allocate_ranked treasury allocated ranked) ≤ℤ treasury)
      × WithinAuthority (allocate_ranked treasury allocated ranked) ranked
unfolding allocate_ranked total
allocate_ranked_bounds treasury allocated [] h = (omega int_laws, tt)
allocate_ranked_bounds treasury allocated ((a, raw) ∷ ranked) h =
    let n = max_ℤ (pos 0) (min_ℤ (min_ℤ a.authority_ceiling raw) (treasury -ℤ allocated)) in
    let left = treasury -ℤ allocated in
    let (low, fits, capped) = final_share_bounds a.authority_ceiling raw left (omega int_laws) in
    let (rest, within) = allocate_ranked_bounds treasury (allocated +ℤ n) ranked (omega int_laws) in
    (omega int_laws, (refl, low, capped, within))

static_amount_bound :
    (status : AgentStatus) (ceiling : ℤ) (share : ℕ)
    → static_amount status ceiling (pos share) ≤ℤ pos share
static_amount_bound restricted ceiling share = ground arith
static_amount_bound probation ceiling share = ground arith
static_amount_bound active ceiling share = ground arith
static_amount_bound suspended ceiling share = ground arith
static_amount_bound retired ceiling share = ground arith

static_allocations_bound :
    (share : ℕ) (agents : List AgentRecord)
    → total (static_allocations (pos share) agents) ≤ℤ pos (length agents * share)
unfolding static_allocations total
static_allocations_bound share [] = omega arith
static_allocations_bound share (a ∷ agents) =
    let step : suc (length agents) * share ≡ share + length agents * share = omega arith in
    omega (
      int_laws,
      step,
      static_amount_bound a.status a.authority_ceiling share,
      static_allocations_bound share agents,
    )

allocate_static_bound :
    (agents : List AgentRecord) (treasury : ℕ)
    → total (allocate_static agents treasury) ≤ℤ pos treasury
unfolding allocate_static
allocate_static_bound agents treasury = omega (
  arith,
  mul-div-le treasury (length agents),
  static_allocations_bound (treasury / length agents) agents,
)

total_of_zeros : (agents : Dict AgentRecord) → total (zero_allocations agents) ≡ pos 0
unfolding zero_allocations total
total_of_zeros [] = refl
total_of_zeros ((k, a) ∷ agents) = eq_of_parts _ _ (omega (int_laws, parts (total_of_zeros agents)))

module _ (by_performance by_adaptation : Ranking) where
  strategy_bound :
      (strategy : AllocationStrategy) (agents : List AgentRecord) (treasury : ℕ)
      → total (by_strategy by_performance by_adaptation strategy agents treasury) ≤ℤ pos treasury
  strategy_bound static agents treasury = allocate_static_bound agents treasury
  strategy_bound performance agents treasury =
      let (sum, within) =
        allocate_ranked_bounds (pos treasury) (pos 0) (by_performance agents treasury)
          (omega arith) in
      omega (int_laws, sum)
  strategy_bound adaptive agents treasury =
      let (sum, within) =
        allocate_ranked_bounds (pos treasury) (pos 0) (by_adaptation agents treasury)
          (omega arith) in
      omega (int_laws, sum)

  -- For every strategy, and whatever the ranking and the raw shares, the conservation assertion of
  -- `allocate` holds: it returns allocations, and their sum is no more than the treasury.
  pub allocate_conserves :
      (strategy : AllocationStrategy) (org : Organisation)
      → (l : Allocations) × (allocate by_performance by_adaptation strategy org ≡ some l)
        × (total l ≤ℤ pos (available org))
  unfolding allocate
  allocate_conserves strategy org =
      let agents = eligible_agents org.agents in
      let bound = strategy_bound strategy agents (available org) in
      let l = by_strategy by_performance by_adaptation strategy agents (available org) in
      let covered : leb_ℤ (total l) (pos (available org)) ≡ true = ground (arith, bound) in
      let zeros = zero_allocations org.agents in
      let none_given : total zeros ≤ℤ pos (available org) =
        omega (arith, parts (total_of_zeros org.agents)) in
      elim (Bool-cases (is_nothing agents)) [
        | inl nobody ↦ (zeros, simp nobody, none_given)
        | inr someone ↦ elim (Bool-cases (leb_ℤ (pos (available org)) (pos 0))) [
          | inl exhausted ↦ (zeros, simp (someone, exhausted), none_given)
          | inr funds ↦ (l, simp (someone, funds, covered), bound)
        ]
      ]
