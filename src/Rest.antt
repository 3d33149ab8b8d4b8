-- ===== src/Rest.antt =====
-- rest_api.py: the client of the Intratone REST API (`IntratoneAPI`).
pub mod Json
pub mod Session
pub mod Auth
pub mod Calls
pub mod Access
pub mod Bounds
pub mod Onboarding
pub mod Registered
pub mod Failures
pub mod Verdicts
pub mod Openable
pub mod Recovery
mod Tests
