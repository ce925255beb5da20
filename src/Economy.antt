-- ===== src/Economy.antt =====
-- The economy of an organisation (src/economy/): how the treasury is divided among the agents.
pub mod Allocator
pub mod Bounds
pub mod Reputation
pub mod Lifecycle
mod Tests
