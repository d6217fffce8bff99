-- ===== src/Shell.antt =====
-- The frame of the application: its routes, the links that lead to them, the login page, and what is shown
-- of errors and states in common.
pub mod Routes
pub mod Links
pub mod Destinations
pub mod Login
pub mod Frame
pub mod Common
mod Tests
