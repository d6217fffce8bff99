-- ===== src/Stores.antt =====
-- The global state of the dashboard: frontend/dashboard/src/store and the types that it holds.
pub mod Types
pub mod Session
pub mod Traffic
mod Tests
