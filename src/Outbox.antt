-- ===== src/Outbox.antt =====
-- The transactional outbox (src/features/outbox): rows that producers write with their business
-- state, the relay that dispatches them, and the maintenance that prunes them.
pub mod Message
pub mod Repository
pub mod Relay
pub mod Prune
pub mod Dedupe
pub mod Producer
pub mod System
mod Tests
