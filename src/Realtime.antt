-- ===== src/Realtime.antt =====
-- frontend/dashboard/src/services/websocket.ts: one socket for each channel, with subscribers,
-- heartbeat and reconnection.
pub mod Backoff
pub mod State
pub mod Service
pub mod Steps
pub mod Beats
pub mod Heartbeat
pub mod Attempts
pub mod Teardown
pub mod Resurrection
pub mod Delivery
pub mod Once
pub mod Subscribed
mod Tests
