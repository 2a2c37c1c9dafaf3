-- ===== src/Outbox/Tests.antt =====
-- The theorems of the outbox at concrete tables, and runs of its operations.
mod Data
mod Relay
mod Tables
