-- ===== src/Work.antt =====
-- Productive work (src/domain/work_order.py, src/settlement/work_verifier.py,
-- src/economy/surplus_accounting.py): receipts, and what becomes of the revenue.
pub mod Receipts
pub mod Repository
pub mod Verification
pub mod Saving
pub mod Surplus
pub mod Settlement
pub mod Revenue
mod Tests
