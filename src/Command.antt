-- ===== src/Command.antt =====
-- The command center (frontend/dashboard/src/components/CommandCenter): a module per component.
pub mod Incidents
pub mod Optimizer
pub mod Modal
pub mod Intersections
pub mod Rotation
pub mod Canvas
pub mod Deck
pub mod Camera
pub mod Bars
mod Tests
mod ClickTests
mod PageTests
