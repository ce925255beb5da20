-- ===== src/Orchestration/Budget.antt =====
-- `BudgetedAgentAdapter` (src/orchestration/budget.py). The delegate is a parameter: it is given the
-- prompt and what it keeps of its own, and it answers or raises. A schema and a system prompt are part
-- of the prompt's text here.
use kalyx_mao_engine.Base.{
  ℕ, suc, ◌-◌, String, ◌≤◌, Bool, true, List, [], ◌∷◌, inl, inr, arith, ltb, leb, if◌then◌else◌,
  Bool-cases,
}
use kalyx_mao_engine.Base.Int.{ℤ, pos_part}
use kalyx_mao_engine.Base.Outcome.{Result}

pub record Prompt : Type 0 where
  pub length : ℕ
  pub text : String

pub record BudgetedAgentAdapter : Type 0 where
  pub max_calls : ℕ
  pub max_prompt_chars : ℕ
  pub calls_used : ℕ

-- AgentBudgetExceeded, or what the delegate's call ends with.
pub data Answer (A : Type 0) : Type 0 where
  budget_exceeded : Answer A
  answered : Result A → Answer A

-- `max(0, int(max_calls))` and `max(1, int(max_prompt_chars))`
unfoldable pub init : ℤ → ℤ → BudgetedAgentAdapter
init max_calls max_prompt_chars = record {
  max_calls = pos_part max_calls;
  max_prompt_chars = if ltb (pos_part max_prompt_chars) 1 then 1 else pos_part max_prompt_chars;
  calls_used = 0;
}

abbrev pub is_over_budget : Prompt → BudgetedAgentAdapter → Bool
is_over_budget p b = if leb b.max_calls b.calls_used then true else ltb b.max_prompt_chars p.length

unfoldable pub remaining_calls : BudgetedAgentAdapter → ℕ
remaining_calls b = b.max_calls - b.calls_used

module _ {S A : Type 0} (delegate : Prompt → S → Result A × S) where
  abbrev pub delegated : Prompt → BudgetedAgentAdapter → S → Answer A × BudgetedAgentAdapter × S
  delegated p b s =
      let (answer, s') = delegate p s in
      (answered answer, record b { calls_used = suc b.calls_used }, s')

  unfoldable pub generate_structured :
      Prompt → BudgetedAgentAdapter → S → Answer A × BudgetedAgentAdapter × S
  generate_structured p b s =
      if is_over_budget p b then (budget_exceeded, b, s) else delegated p b s

  -- How often the delegate is called in a sequence of calls.
  unfoldable pub delegate_count : BudgetedAgentAdapter → S → List Prompt → ℕ
  delegate_count b s [] = 0
  delegate_count b s (p ∷ ps) =
      let (answer, b', s') = generate_structured p b s in
      let later = delegate_count b' s' ps in if is_over_budget p b then later else suc later

  -- Whatever is asked, and whether the delegate answers or raises, it is called no more often than
  -- calls remain.
  pub delegate_count-remaining_calls :
      (b : BudgetedAgentAdapter) (s : S) (ps : List Prompt)
      → delegate_count b s ps ≤ remaining_calls b
  unfolding delegate_count remaining_calls generate_structured
  delegate_count-remaining_calls b s [] = omega arith
  delegate_count-remaining_calls b s (p ∷ ps) = elim (Bool-cases (is_over_budget p b)) [
    | inl over ↦ rw over (delegate_count-remaining_calls b s ps)
    | inr within ↦
        let rest =
          delegate_count-remaining_calls (record b { calls_used = suc b.calls_used })
            (delegate p s).1 ps in
        let left : suc b.calls_used ≤ b.max_calls = ground (arith, within) in
        rw within (omega (arith, rest, left))
  ]
