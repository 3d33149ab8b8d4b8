-- ===== src/Coordinator.antt =====
-- coordinator.py: rings, the user's taps and the call between them (`IntratoneCoordinator`).
pub mod State
pub mod Push
pub mod Taps
pub mod Agree
pub mod Changes
pub mod Freed
pub mod World
pub mod Waiting
pub mod Runs
pub mod Doorbell
pub mod Updates
pub mod Rings
pub mod Answer
mod Tests
