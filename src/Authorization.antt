-- ===== src/Authorization.antt =====
-- The authorization feature (src/features/authorization): the registry of resource types, and the
-- engine that answers checks from relationship tuples.
pub mod Types
pub mod Registry
pub mod Engine
mod Tests
