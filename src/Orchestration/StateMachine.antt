-- ===== src/Orchestration/StateMachine.antt =====
-- `StateMachine` (src/orchestration/state_machine.py) for organisations and tasks.
use kalyx_mao_engine.Base.{
  ℕ, String, Bool, true, false, ◌≡◌, ◌==◌, arith, inl, inr, Bool-cases, List, [], ◌∷◌, any,
  if◌then◌else◌,
}
use kalyx_mao_engine.Base.Outcome.{Result, ok, err, ◌>>=◌, invalid_transition}
use kalyx_mao_engine.Entities.{OrgState, Organisation}

abbrev pub org_index : OrgState → ℕ
org_index OrgState.initializing = 0
org_index OrgState.planning = 1
org_index OrgState.executing = 2
org_index OrgState.paused = 3
org_index OrgState.failed = 4
org_index OrgState.completed = 5

abbrev pub org_transitions : OrgState → List OrgState
org_transitions OrgState.initializing = OrgState.planning ∷ OrgState.failed ∷ []
org_transitions OrgState.planning = OrgState.executing ∷ OrgState.paused ∷ OrgState.failed ∷ []
org_transitions OrgState.executing =
    OrgState.planning ∷ OrgState.paused ∷ OrgState.completed ∷ OrgState.failed ∷ []
org_transitions OrgState.paused = OrgState.executing ∷ OrgState.failed ∷ []
org_transitions OrgState.completed = OrgState.planning ∷ []
org_transitions OrgState.failed = []

unfoldable pub transition_org : Organisation → OrgState → Result Organisation
transition_org org to =
    if any (λ s. org_index s == org_index to) (org_transitions org.state)
    then ok (record org { state = to })
    else err invalid_transition

pub data TaskStatus : Type 0 where
  pending assigned in_progress submitted approved rejected completed failed : TaskStatus

pub record Task : Type 0 where
  pub id : String
  pub status : TaskStatus

abbrev pub task_index : TaskStatus → ℕ
task_index pending = 0
task_index assigned = 1
task_index in_progress = 2
task_index submitted = 3
task_index approved = 4
task_index rejected = 5
task_index completed = 6
task_index failed = 7

abbrev pub task_transitions : TaskStatus → List TaskStatus
task_transitions pending = assigned ∷ failed ∷ []
task_transitions assigned = in_progress ∷ failed ∷ []
task_transitions in_progress = submitted ∷ completed ∷ failed ∷ []
task_transitions submitted = approved ∷ rejected ∷ completed ∷ failed ∷ []
task_transitions approved = completed ∷ failed ∷ []
task_transitions rejected = in_progress ∷ failed ∷ []
task_transitions completed = []
task_transitions failed = []

unfoldable pub transition_task : Task → TaskStatus → Result Task
transition_task task to =
    if any (λ s. task_index s == task_index to) (task_transitions task.status)
    then ok (record task { status = to })
    else err invalid_transition

-- The statuses of a task that no work has begun on.
abbrev pub is_unstarted : TaskStatus → Bool
is_unstarted pending = true
is_unstarted assigned = true
is_unstarted failed = true
is_unstarted _ = false

abbrev is_in_progress : TaskStatus → Bool
is_in_progress s = task_index s == 2

step-unstarted :
    (from to : TaskStatus)
    → is_unstarted from ≡ true
    → is_in_progress to ≡ false
    → any (λ s. task_index s == task_index to) (task_transitions from) ≡ true
    → is_unstarted to ≡ true
step-unstarted pending to u n h = ground (arith, n, h)
step-unstarted assigned to u n h = ground (arith, n, h)
step-unstarted failed to u n h = cc
step-unstarted in_progress to u n h = cc
step-unstarted submitted to u n h = cc
step-unstarted approved to u n h = cc
step-unstarted rejected to u n h = cc
step-unstarted completed to u n h = cc

-- The statuses set one after the other.
unfoldable pub run_task : Task → List TaskStatus → Result Task
run_task task [] = ok task
run_task task (to ∷ tos) = do next ← transition_task task to; run_task next tos

unfoldable pub starts_work : List TaskStatus → Bool
starts_work = any is_in_progress

-- A task that no work has begun on, and that is never set to IN_PROGRESS, is never COMPLETED: whatever
-- transitions of it return, it is PENDING, ASSIGNED or FAILED after them.
pub run_task-unstarted :
    (task after : Task) (tos : List TaskStatus)
    → is_unstarted task.status ≡ true
    → starts_work tos ≡ false
    → run_task task tos ≡ ok after
    → is_unstarted after.status ≡ true
unfolding run_task starts_work transition_task
run_task-unstarted task after [] u n h = let same : task ≡ after = ground (arith, h) in rw same at u
run_task-unstarted task after (to ∷ tos) u n h =
    elim (Bool-cases (any (λ s. task_index s == task_index to) (task_transitions task.status))) [
      | inr illegal ↦ cc (simp illegal at h)
      | inl legal ↦
          run_task-unstarted (record task { status = to }) after tos
            (step-unstarted task.status to u (ground (arith, n)) legal) (ground (arith, n))
            (simp legal at h)
    ]
