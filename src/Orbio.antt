-- ===== src/Orbio.antt =====
-- The governed purchase of Orbio CREDIT: the typed intent (src/domain/blockchain.py), the policy that
-- decides on it (src/governance/orbio_purchase_rules.py), the check of its evidence
-- (src/settlement/orbio_purchase_verifier.py) and the end of an ambiguous purchase
-- (src/settlement/orbio_purchase_reconciliation.py).
pub mod Text
pub mod Intents
pub mod Bounds
pub mod Policy
pub mod Allowed
pub mod Confirming
pub mod Revocation
pub mod EarlierApproval
pub mod Verifier
pub mod Matching
pub mod Verified
pub mod OneReference
pub mod Reconciliation
pub mod Soundness
pub mod Money
pub mod Pending
pub mod Ending
pub mod Settled
pub mod Acceptance
pub mod Paying
mod Samples
mod Tests
mod ReconciliationTests
