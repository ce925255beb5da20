-- ===== src/Policy.antt =====
-- The policy engine: the rules (src/governance/rules.py), the evaluation of proposals and the
-- authorization tokens (src/governance/policy_engine.py, src/governance/crypto.py).
pub mod Rules
pub mod Engine
pub mod Decisions
pub mod Tokens
pub mod Issue
mod Tests
