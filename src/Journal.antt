-- ===== src/Journal.antt =====
-- The two durable journals: single use of authorization tokens, and idempotency keys.
pub mod Token
pub mod Idempotency
pub mod Finality
mod Tests
