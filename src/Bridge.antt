-- ===== src/Bridge.antt =====
-- audio_bridge.py: the start and the stop of `AudioBridge`, and what they own.
pub mod State
pub mod Account
pub mod Places
pub mod Owned
pub mod Runs
pub mod Late
mod Tests
