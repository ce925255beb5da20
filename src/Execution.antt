-- ===== src/Execution.antt =====
-- The consequential execution boundary: the manager of src/execution/consequential.py and the
-- reconciliation service of src/settlement/reconciliation.py.
pub mod State
pub mod Manager
pub mod Steps
pub mod Submission
pub mod Soundness
pub mod Reconciliation
pub mod Recovery
pub mod Outcomes
pub mod ServiceSoundness
pub mod Proposals
pub mod ProposalSoundness
mod ProposalTests
mod Tests
