-- ===== src/Marketplace.antt =====
-- The marketplace (src/domain/marketplace.py, src/domain/capability.py,
-- src/persistence/marketplace_repository.py): orders, escrows and capability grants; what publishes
-- an order, settles it and refunds it (src/agents/b2b_marketplace_coordinator.py).
pub mod Orders
pub mod Escrows
pub mod Grants
pub mod Claiming
pub mod Replays
pub mod Coordinator
pub mod Effects
pub mod Settling
pub mod Closing
pub mod Payout
pub mod Publishing
pub mod Listing
pub mod Reversal
mod ListingTests
mod Tests
