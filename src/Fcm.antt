-- ===== src/Fcm.antt =====
-- fcm_listener.py: the supervised push listener (`FcmListener`); the push client itself is third-party
-- code, whose answers are inputs.
pub mod State
pub mod Backoff
pub mod Told
mod Tests
