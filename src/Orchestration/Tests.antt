-- ===== src/Orchestration/Tests.antt =====
-- A budget and a task on concrete inputs.
use kalyx_mao_engine.Base.{ℕ, suc, [], ◌∷◌, String, ◌≡◌, refl}
use kalyx_mao_engine.Base.Outcome.{Result, ok}
use kalyx_mao_engine.Orchestration.Budget.{
  Prompt, BudgetedAgentAdapter, delegate_count, generate_structured,
}
use kalyx_mao_engine.Orchestration.StateMachine.{
  Task, TaskStatus, pending, assigned, in_progress, completed, run_task, transition_task,
}

abbrev budget : BudgetedAgentAdapter
budget = record { max_calls = 2; max_prompt_chars = 10; calls_used = 0 }

abbrev short : Prompt
short = record { length = 4; text = "plan" }

abbrev long : Prompt
long = record { length = 11; text = "plan a plan" }

abbrev delegate : Prompt → ℕ → Result String × ℕ
delegate p n = (ok p.text, suc n)

-- The bound is reached.
two_of_four : delegate_count delegate budget 0 (short ∷ long ∷ short ∷ short ∷ []) ≡ 2
unfolding delegate_count generate_structured
two_of_four = refl

abbrev task : TaskStatus → Task
task status = record { id = "task-1"; status = status }

-- With work begun, a task is completed.
completed_after_work :
    run_task (task pending) (assigned ∷ in_progress ∷ completed ∷ []) ≡ ok (task completed)
unfolding run_task transition_task
completed_after_work = refl
