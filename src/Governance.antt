-- ===== src/Governance.antt =====
-- Governance (src/governance/): administrators' approvals and the circuit breaker.
pub mod Admin
pub mod Quorum
pub mod Replay
pub mod Breaker
pub mod Resumption
pub mod Approvals
pub mod Consumption
pub mod HumanGate
pub mod HumanToken
pub mod Escalations
mod Tests
