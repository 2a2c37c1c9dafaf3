-- ===== src/Users.antt =====
-- The parts of src/features/users.
pub mod Model
pub mod Repository
pub mod Profile
pub mod Pages
pub mod Deactivate
pub mod Erase
mod Tests
