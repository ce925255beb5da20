-- ===== src/Orchestration.antt =====
-- Orchestration (src/orchestration/): the budget of an agent adapter's calls, and the state machines of
-- organisations and tasks.
pub mod Budget
pub mod StateMachine
mod Tests
